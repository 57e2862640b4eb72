-- ===== src/Text/Calendar.antt =====
-- Instants and dates: time.Parse and Format with the layout time.DateOnly, and Truncate to a day.
-- An instant counts nanoseconds from the start of the year 0, in UTC.
use Prim.Native.Char.{Char, code}
use Prim.Native.String.{[], ◌∷◌}
use Prim.Native.String
use spliit_mcp.Prelude.{
  ℕ, zero, suc, ◌+◌, ◌-◌, ◌*◌, ◌/◌, ◌%◌, String, Bool, not, ◌&&◌, ◌||◌, Option, none, some, leb,
  ltb, eqb, if◌then◌else◌,
}

abbrev pub day_ns : ℕ
day_ns = 86_400_000_000_000

unfoldable pub is_leap : ℕ → Bool
is_leap y = eqb (y % 4) 0 && (not (eqb (y % 100) 0) || eqb (y % 400) 0)

unfoldable pub year_length : ℕ → ℕ
unfolding is_leap
year_length y = if is_leap y then 366 else 365

-- The days of the years before `y`.
unfoldable pub year_start : ℕ → ℕ
unfolding year_length
year_start zero = 0
year_start (suc y) = year_start y + year_length y

unfoldable pub month_length : Bool → ℕ → ℕ
month_length leap m =
    if eqb m 2
    then (if leap then 29 else 28)
    else if eqb m 4 || eqb m 6 || eqb m 9 || eqb m 11
    then 30
    else 31

-- The days of a year before the month that follows month `m`.
unfoldable pub month_end : Bool → ℕ → ℕ
unfolding month_length
month_end leap zero = 0
month_end leap (suc m) = month_end leap m + month_length leap (suc m)

pub record Date : Type 0 where
  pub year : ℕ
  pub month : ℕ
  pub day : ℕ

unfoldable pub is_date : Date → Bool
unfolding month_length is_leap
is_date d =
    leb 1 d.month
    && leb d.month 12
    && leb 1 d.day
    && leb d.day (month_length (is_leap d.year) d.month)

unfoldable pub to_days : Date → ℕ
unfolding year_start month_end
to_days d = year_start d.year + month_end (is_leap d.year) (d.month - 1) + (d.day - 1)

unfoldable pub digit_of : Char → Option ℕ
digit_of c = if leb b'0' (code c) && leb (code c) b'9' then some (code c - b'0') else none

infixl 5 ◌>>=◌
abbrev ◌>>=◌ {ℓ κ} : {A : Type ℓ} {B : Type κ} → Option A → (A → Option B) → Option B
none >>= k = none
some a >>= k = k a

unfoldable pub two_digits : Char → Char → Option ℕ
unfolding digit_of
two_digits a b = do m ← digit_of a; n ← digit_of b; some (m * 10 + n)

-- time.Parse with the layout "2006-01-02": four digits, two and two, and a day that exists.
unfoldable pub parse_date : String → Option ℕ
unfolding two_digits is_date to_days
parse_date (a ∷ (b ∷ (c ∷ (d ∷ (s ∷ (e ∷ (f ∷ (t ∷ (g ∷ (h ∷ [])))))))))) = do
  century ← two_digits a b
  rest ← two_digits c d
  month ← two_digits e f
  day ← two_digits g h
  let date : Date = record { year = century * 100 + rest; month = month; day = day }
  if eqb (code s) b'-' && eqb (code t) b'-' && is_date date
      then some (to_days date * day_ns)
      else none
parse_date _ = none

-- `Truncate(24 * time.Hour)`
unfoldable pub truncate_day : ℕ → ℕ
truncate_day t = t - t % day_ns

-- The year that holds day `n`, counted from the start of year `y`, and the day in that year. Each
-- round takes a year off, so `n` rounds are enough.
unfoldable pub split_year : ℕ → ℕ → ℕ → ℕ × ℕ
unfolding year_length
split_year zero y n = (y, n)
split_year (suc fuel) y n =
    let later = split_year fuel (suc y) (n - year_length y) in
    if ltb n (year_length y) then (y, n) else later

-- The month that holds day `n`, counted from the start of month `m`, and the day in that month.
unfoldable pub split_month : ℕ → Bool → ℕ → ℕ → ℕ × ℕ
unfolding month_length
split_month zero leap m n = (m, n)
split_month (suc fuel) leap m n =
    let later = split_month fuel leap (suc m) (n - month_length leap m) in
    if ltb n (month_length leap m) then (m, n) else later

unfoldable pub of_days : ℕ → Date
unfolding split_year split_month is_leap
of_days n =
    let (y, in_year) = split_year n 0 n in
    let (m, in_month) = split_month 12 (is_leap y) 1 in_year in
    record { year = y; month = m; day = in_month + 1 }

unfoldable pub digit_char : ℕ → Char
digit_char n =
    if eqb n 0
    then "0"
    else if eqb n 1
    then "1"
    else if eqb n 2
    then "2"
    else if eqb n 3
    then "3"
    else if eqb n 4
    then "4"
    else if eqb n 5
    then "5"
    else if eqb n 6
    then "6"
    else if eqb n 7
    then "7"
    else if eqb n 8
    then "8"
    else "9"

-- The digits of a number in front of a text; as many rounds as the number are enough.
unfoldable pub long_digits : ℕ → ℕ → String → String
unfolding digit_char
long_digits zero n s = digit_char (n % 10) ∷ s
long_digits (suc fuel) n s =
    let longer = long_digits fuel (n / 10) (digit_char (n % 10) ∷ s) in
    if ltb n 10 then digit_char n ∷ s else longer

unfoldable pub pad2 : ℕ → String → String
unfolding digit_char
pad2 n s = digit_char (n / 10) ∷ (digit_char (n % 10) ∷ s)

-- `Format(time.DateOnly)`
unfoldable pub format_date : ℕ → String
unfolding of_days pad2 long_digits
format_date t =
    let d = of_days (t / day_ns) in
    let tail : String = String.◌++◌ "-" (pad2 d.month (String.◌++◌ "-" (pad2 d.day ""))) in
    if ltb d.year 10000
    then pad2 (d.year / 100) (pad2 (d.year % 100) tail)
    else long_digits d.year d.year tail
