-- ===== src/Text/Decimals.antt =====
-- The decimal library and the amount type of the Spliit API library, which the program only calls:
-- what it uses of them, as an interface.
use spliit_mcp.Prelude.{String, Bool, Option, some, ℤ, pos, ◌≡◌, ap, ◌∙◌}
use spliit_mcp.Text.{trim_space}

-- `shift`, `round`, `int_part` and `is_zero` are the methods of `decimal.Decimal`; `from_string` is
-- `decimal.NewFromString`; `fixed2` is `AsDecimal().StringFixed(2)` of an amount.
pub record Decimals (D : Type 0) : Type 0 where
  pub from_string : String → Option D
  pub is_zero : D → Bool
  pub shift : ℤ → D → D
  pub round : ℤ → D → D
  pub int_part : D → ℤ
  pub fixed2 : ℤ → String

-- `ToAmount` of internal/spliit/client.go
unfoldable pub to_amount : {D : Type 0} → Decimals D → D → ℤ
to_amount dec value = dec.int_part (dec.round (pos 0) (dec.shift (pos 2) value))

-- What the decimal library says of the text that an amount of `a` hundredths is printed as: it has no
-- outer white space and reads as a decimal that, moved by two places, is the whole number `a`, which
-- rounding to no places leaves as it is.
pub record PrintsExactly {D : Type 0} (dec : Decimals D) (a : ℤ) : Type 0 where
  pub printed : D
  pub whole : D
  pub unspaced : trim_space (dec.fixed2 a) ≡ dec.fixed2 a
  pub reads_printed : dec.from_string (dec.fixed2 a) ≡ some printed
  pub moved : dec.shift (pos 2) printed ≡ whole
  pub rounded : dec.round (pos 0) whole ≡ whole
  pub is_whole : dec.int_part whole ≡ a

pub to_amount-printed :
    {D : Type 0} (dec : Decimals D) (a : ℤ) (exact : PrintsExactly dec a)
    → to_amount dec exact.printed ≡ a
unfolding to_amount
to_amount-printed dec a exact =
    ap (λ d. dec.int_part (dec.round (pos 0) d)) exact.moved
    ∙ ap dec.int_part exact.rounded
    ∙ exact.is_whole
