-- ===== src/Text/Escapes.antt =====
-- Percent escapes of net/url: what `unescape` and `escape` do to a path and to a host. Escaped bytes
-- that are not UTF-8 are left out.
use Prim.Native.Char.{Char, char, code, nul}
use Prim.Native.Nat.{Ordering, compare}
use Prim.Native.String
use Prim.Native.String.{[], ◌∷◌}
use mathlib.Core.Option
use spliit_mcp.Prelude.{
  ℕ, ◌+◌, ◌-◌, ◌*◌, ◌/◌, ◌%◌, ◌≡◌, refl, String, Bool, ◌&&◌, ◌||◌, Option, none, some, List, leb,
  ltb, eqb, if◌then◌else◌,
}

-- The character of a code point below the surrogates, and above them.
abbrev char_below : (n : ℕ) (o : Ordering) → compare n 55296 ≡ o → Char
char_below n Ordering.lt h = char n (rw h tt)
char_below n Ordering.eq h = nul
char_below n Ordering.gt h = nul

abbrev char_above :
    (n : ℕ) (o p q : Ordering)
    → compare n 55296 ≡ o
    → compare 57343 n ≡ p
    → compare n 1114112 ≡ q
    → Char
char_above n Ordering.gt Ordering.lt Ordering.lt h k l = char n (rw (h, k, l) tt)
char_above n _ _ _ h k l = nul

unfoldable pub of_code : ℕ → Char
of_code n =
    if ltb n 55296
    then char_below n (compare n 55296) refl
    else char_above n (compare n 55296) (compare 57343 n) (compare n 1114112) refl refl refl

abbrev pub is_digit : ℕ → Bool
is_digit c = leb b'0' c && leb c b'9'

abbrev pub is_upper : ℕ → Bool
is_upper c = leb b'A' c && leb c b'Z'

abbrev pub is_lower : ℕ → Bool
is_lower c = leb b'a' c && leb c b'z'

abbrev pub is_alpha : ℕ → Bool
is_alpha c = is_upper c || is_lower c

-- `unhex`, where it is a hex digit.
unfoldable pub unhex : ℕ → Option ℕ
unhex c =
    if is_digit c
    then some (c - b'0')
    else if leb b'a' c && leb c b'f'
    then some (c - b'a' + 10)
    else if leb b'A' c && leb c b'F'
    then some (c - b'A' + 10)
    else none

-- A character of the text, or a byte that was escaped.
pub data Piece : Type 0 where
  plain : Char → Piece
  byte : ℕ → Piece

abbrev pub cons_piece : Option Piece → Option (List Piece) → Option (List Piece)
cons_piece (some p) (some ps) = some (List.◌∷◌ p ps)
cons_piece _ _ = none

abbrev pub after_digit : Option ℕ → (ℕ → Option (List Piece)) → Option (List Piece)
after_digit none f = none
after_digit (some n) f = f n

-- What the scan of a text has just read.
pub data Seen : Type 0 where
  nothing percent : Seen
  digit : ℕ → Seen

-- The pieces of a text: `may` says which characters may stand as they are, and `may_byte` which
-- bytes may be escaped.
unfoldable pub pieces : (ℕ → Bool) → (ℕ → Bool) → Seen → String → Option (List Piece)
unfolding unhex
pieces may may_byte nothing [] = some List.[]
pieces may may_byte percent [] = none
pieces may may_byte (digit n) [] = none
pieces may may_byte nothing (c ∷ s) =
    let rest = pieces may may_byte percent s in
    let next = pieces may may_byte nothing s in
    if eqb (code c) b'%'
    then rest
    else if may (code c)
    then cons_piece (some (plain c)) next
    else none
pieces may may_byte percent (c ∷ s) =
    after_digit (unhex (code c)) (λ n. pieces may may_byte (digit n) s)
pieces may may_byte (digit m) (c ∷ s) = after_digit (unhex (code c)) (λ n.
    if may_byte (m * 16 + n)
    then cons_piece (some (byte (m * 16 + n))) (pieces may may_byte nothing s)
    else none)

-- A UTF-8 sequence that is being read: the continuation bytes that are left, the bits so far, and the
-- least code point of its length.
pub record Sequence : Type 0 where
  pub left : ℕ
  pub bits : ℕ
  pub least : ℕ

abbrev no_sequence : Sequence
no_sequence = record { left = 0; bits = 0; least = 0 }

-- The sequence that a byte starts.
unfoldable pub lead : ℕ → Sequence
lead b =
    if leb 0xc2 b && leb b 0xdf
    then record { left = 1; bits = b - 0xc0; least = 0x80 }
    else if leb 0xe0 b && leb b 0xef
    then record { left = 2; bits = b - 0xe0; least = 0x800 }
    else if leb 0xf0 b && leb b 0xf4
    then record { left = 3; bits = b - 0xf0; least = 0x10000 }
    else no_sequence

unfoldable pub assemble : Sequence → List Piece → String
unfolding lead of_code
assemble q List.[] = []
assemble q (List.◌∷◌ (plain c) ps) = c ∷ assemble no_sequence ps
assemble q (List.◌∷◌ (byte b) ps) =
    let bits = q.bits * 64 + (b - 0x80) in
    let ended = of_code bits ∷ assemble no_sequence ps in
    let dropped = assemble no_sequence ps in
    let going = assemble (record { left = q.left - 1; bits = bits; least = q.least }) ps in
    let started = assemble (lead b) ps in
    if ltb b 0x80
    then of_code b ∷ dropped
    else if ltb b 0xc0 && eqb q.left 1
    then (if leb q.least bits then ended else dropped)
    else if ltb b 0xc0 && ltb 1 q.left
    then going
    else started

-- `unescape`
unfoldable pub unescape : (ℕ → Bool) → (ℕ → Bool) → String → Option String
unfolding pieces assemble
unescape may may_byte s = Option.map (assemble no_sequence) (pieces may may_byte nothing s)

unfoldable pub hex_char : ℕ → Char
unfolding of_code
hex_char n = of_code (if ltb n 10 then b'0' + n else b'A' + (n - 10))

abbrev pub escape_byte : ℕ → String → String
escape_byte b s = String.◌++◌ "%" (hex_char (b / 16) ∷ (hex_char (b % 16) ∷ s))

-- The bytes of a code point, escaped in front of a text.
unfoldable pub escape_code : ℕ → String → String
unfolding hex_char
escape_code n s =
    if ltb n 0x80
    then escape_byte n s
    else if ltb n 0x800
    then escape_byte (0xc0 + n / 64) (escape_byte (0x80 + n % 64) s)
    else if ltb n 0x10000
    then escape_byte (0xe0 + n / 4096)
        (escape_byte (0x80 + n / 64 % 64) (escape_byte (0x80 + n % 64) s))
    else escape_byte (0xf0 + n / 262144) (
        escape_byte (0x80 + n / 4096 % 64)
          (escape_byte (0x80 + n / 64 % 64) (escape_byte (0x80 + n % 64) s)))

-- `escape`, where `keeps` says what stands as it is.
unfoldable pub escape : (ℕ → Bool) → String → String
unfolding escape_code
escape keeps [] = []
escape keeps (c ∷ s) =
    let rest = escape keeps s in if keeps (code c) then c ∷ rest else escape_code (code c) rest
