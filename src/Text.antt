-- ===== src/Text.antt =====
-- What the program uses of Go's `strings` package. A Go string that was decoded from JSON is valid
-- UTF-8, so it is a native `String`: a list of code points, whose `len` counts bytes as Go's does.
-- The Unicode case tables are data of the Go runtime and enter as functions on code points.
pub mod Laws
pub mod Decimals
pub mod Calendar
pub mod Escapes
pub mod Url
use Prim.Native.Char.{Char, code}
use Prim.Native.String
use mathlib.Core.List
use Prim.Native.String.{[], ◌∷◌}
use text.Mathlib.Text.{find?}
use spliit_mcp.Prelude.{
  ℕ, String, List, Bool, true, false, ◌&&◌, ◌||◌, ◌+◌, leb, ltb, eqb, is_some, if◌then◌else◌, ◌==◌,
}

-- unicode.IsSpace: the characters with the White_Space property.
unfoldable pub is_space : ℕ → Bool
is_space c =
    (leb 9 c && leb c 13)
    || eqb c 32
    || eqb c 0x85
    || eqb c 0xa0
    || eqb c 0x1680
    || (leb 0x2000 c && leb c 0x200a)
    || eqb c 0x2028
    || eqb c 0x2029
    || eqb c 0x202f
    || eqb c 0x205f
    || eqb c 0x3000

-- strings.TrimLeftFunc
unfoldable pub trim_left : (ℕ → Bool) → String → String
trim_left p [] = []
trim_left p (c ∷ s) = let rest = trim_left p s in if p (code c) then rest else c ∷ s

unfoldable pub cons_trimmed : (ℕ → Bool) → Char → String → String
cons_trimmed p c [] = if p (code c) then [] else c ∷ []
cons_trimmed p c (d ∷ s) = c ∷ (d ∷ s)

-- strings.TrimRightFunc
unfoldable pub trim_right : (ℕ → Bool) → String → String
unfolding cons_trimmed
trim_right p [] = []
trim_right p (c ∷ s) = cons_trimmed p c (trim_right p s)

-- strings.TrimSpace
unfoldable pub trim_space : String → String
unfolding trim_left trim_right is_space
trim_space s = trim_right is_space (trim_left is_space s)

-- Whether strings.TrimSpace leaves nothing.
unfoldable pub is_blank : String → Bool
unfolding trim_space
is_blank s = trim_space s == ""

-- strings.EqualFold, for a table that sends each code point to the representative of its
-- simple-folding orbit.
unfoldable pub equal_fold : (ℕ → ℕ) → String → String → Bool
equal_fold fold [] [] = true
equal_fold fold (c ∷ s) (d ∷ t) = eqb (fold (code c)) (fold (code d)) && equal_fold fold s t
equal_fold fold _ _ = false

-- strings.Contains
unfoldable pub contains : String → String → Bool
contains s part = is_some (find? s part)

-- strings.Join
unfoldable pub join : String → List String → String
join sep List.[] = ""
join sep (List.◌∷◌ s List.[]) = s
join sep (List.◌∷◌ s (List.◌∷◌ t rest)) =
    String.◌++◌ s (String.◌++◌ sep (join sep (List.◌∷◌ t rest)))

-- The number of bytes of a code point in UTF-8.
abbrev utf8_size : ℕ → ℕ
utf8_size c = if ltb c 0x80 then 1 else if ltb c 0x800 then 2 else if ltb c 0x10000 then 3 else 4

-- `len` of a string, in bytes.
unfoldable pub byte_length : String → ℕ
byte_length [] = 0
byte_length (c ∷ s) = utf8_size (code c) + byte_length s

-- strings.TrimRight at slashes
unfoldable pub trim_right_slashes : String → String
unfolding trim_right
trim_right_slashes s = trim_right (λ c. eqb c b'/') s
