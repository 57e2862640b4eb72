-- ===== src/Text/Url.antt =====
-- What the program uses of net/url: `Parse`, the fields `Scheme`, `Host` and `Path` and the method
-- `Hostname` of its result, and `String` of a URL made of these three. An IPv6 literal with a zone is
-- refused here.

use Prim.Native.Char.{Char, code}
use Prim.Native.String
use Prim.Native.String.{[], ◌∷◌}
use text.Mathlib.Text.{starts_with}
use spliit_mcp.Prelude.{
  ℕ, ◌+◌, String, Bool, true, false, not, ◌&&◌, ◌||◌, Option, none, some, leb, ltb, eqb, ◌==◌,
  if◌then◌else◌,
}
use spliit_mcp.Text.{contains}
use spliit_mcp.Text.Escapes.{is_digit, is_alpha, is_upper, of_code, unescape, escape}

pub record Url : Type 0 where
  pub scheme : String
  pub host : String
  pub path : String

infixl 5 ◌>>=◌
abbrev ◌>>=◌ {ℓ κ} : {A : Type ℓ} {B : Type κ} → Option A → (A → Option B) → Option B
none >>= k = none
some a >>= k = k a

abbrev cons_cut : Char → String × Option String → String × Option String
cons_cut c (a, b) = (c ∷ a, b)

-- strings.Cut at a character: what stands before it, and what comes after it.
unfoldable pub cut : ℕ → String → String × Option String
cut n [] = ([], none)
cut n (c ∷ s) = if eqb (code c) n then ([], some s) else cons_cut c (cut n s)

abbrev cons_last : ℕ → Char → String → Option (String × String) → Option (String × String)
cons_last n c s (some (a, b)) = some (c ∷ a, b)
cons_last n c s none = if eqb (code c) n then some ([], s) else none

-- The parts of a text at the last occurrence of a character.
unfoldable pub cut_last : ℕ → String → Option (String × String)
cut_last n [] = none
cut_last n (c ∷ s) = cons_last n c s (cut_last n s)

-- Whether every character of a text passes a test.
unfoldable pub all_codes : (ℕ → Bool) → String → Bool
all_codes p [] = true
all_codes p (c ∷ s) = p (code c) && all_codes p s

-- Whether a character is one of a text.
unfoldable pub among : String → ℕ → Bool
among [] n = false
among (c ∷ s) n = eqb (code c) n || among s n

abbrev is_unreserved : ℕ → Bool
is_unreserved c = is_alpha c || is_digit c || eqb c b'-' || eqb c b'_' || eqb c b'.' || eqb c b'~'

-- What stands unescaped in a path, and in a host.
unfoldable pub keeps_path : ℕ → Bool
unfolding among
keeps_path c = is_unreserved c || among "$&+,/:;=@" c

unfoldable pub keeps_host : ℕ → Bool
unfolding among
keeps_host c = is_unreserved c || among "!$&'()*+,;=:[]<>\"" c

-- `validUserinfo`
unfoldable pub keeps_user : ℕ → Bool
unfolding among
keeps_user c = is_alpha c || is_digit c || among "-._:~!$&'()*+,;=%@" c

-- `getScheme`: an error, no scheme, or the scheme and the rest.
pub data Scan : Type 0 where
  missing absent : Scan
  found : String → String → Scan

abbrev to_lower : Char → Char
to_lower c = if is_upper (code c) then of_code (code c + 32) else c

abbrev cons_scan : Char → Scan → Scan
cons_scan c missing = missing
cons_scan c absent = absent
cons_scan c (found a b) = found (to_lower c ∷ a) b

get_scheme : Bool → String → Scan
unfolding among of_code
get_scheme first [] = absent
get_scheme first (c ∷ s) =
    let later = cons_scan c (get_scheme false s) in
    if is_alpha (code c)
    then later
    else if is_digit (code c) || among "+-." (code c)
    then (if first then absent else later)
    else if eqb (code c) b':'
    then (if first then missing else found "" s)
    else absent

-- `validOptionalPort`
valid_port : String → Bool
unfolding all_codes
valid_port [] = true
valid_port (c ∷ s) = eqb (code c) b':' && all_codes is_digit s

abbrev may_host : ℕ → Bool
may_host c = leb 0x80 c || keeps_host c

abbrev may_host_byte : ℕ → Bool
may_host_byte b = leb 0x80 b || eqb b b'%'

abbrev port_of : Option (String × String) → String
port_of none = ""
port_of (some (host, port)) = String.◌++◌ ":" port

abbrev after_bracket : Option (String × String) → Bool
after_bracket none = false
after_bracket (some (host, port)) = valid_port port && not (contains host "%25")

-- `parseHost`
parse_host : String → Option String
unfolding unescape keeps_host cut_last contains valid_port
parse_host host =
    let ok =
      if starts_with host "["
      then after_bracket (cut_last b']' host)
      else valid_port (port_of (cut_last b':' host)) in
    if ok then unescape may_host may_host_byte host else none

abbrev any_byte : ℕ → Bool
any_byte b = true

-- `parseAuthority`; of the user only an error is kept.
abbrev of_authority : String → Option (String × String) → Option String
of_authority authority none = parse_host authority
of_authority authority (some (user, host)) =
    if all_codes keeps_user user
    then (do h ← parse_host host; _ ← unescape any_byte any_byte user; some h)
    else none

parse_authority : String → Option String
unfolding parse_host cut_last all_codes keeps_user unescape
parse_authority authority = of_authority authority (cut_last b'@' authority)

abbrev after : Option String → String
after none = ""
after (some s) = String.◌++◌ "/" s

-- The text after its first two characters.
abbrev after_two : String → String
after_two (c ∷ (d ∷ s)) = s
after_two s = ""

abbrev with_host : String → Option String → Option String → Option Url
with_host scheme none p = none
with_host scheme (some h) none = none
with_host scheme (some h) (some p) = some (record { scheme = scheme; host = h; path = p })

-- The host and the path of what follows the scheme, without the query.
parse_rest : String → String → Option Url
unfolding cut parse_authority unescape contains
parse_rest scheme rest =
    let (authority, path) = cut b'/' (after_two rest) in
    let (segment, tail) = cut b'/' rest in
    let hosted =
      with_host scheme (parse_authority authority) (unescape any_byte any_byte (after path)) in
    let bare = with_host scheme (some "") (unescape any_byte any_byte rest) in
    if not (starts_with rest "/") && not (scheme == "")
    then some (record { scheme = scheme; host = ""; path = "" })
    else if not (starts_with rest "/") && contains segment ":"
    then none
    else if (not (scheme == "") || not (starts_with rest "///")) && starts_with rest "//"
    then hosted
    else bare

abbrev of_scan : String → Scan → Option Url
of_scan s missing = none
of_scan s absent = let (rest, query) = cut b'?' s in parse_rest "" rest
of_scan s (found scheme s') = let (rest, query) = cut b'?' s' in parse_rest scheme rest

abbrev is_control : ℕ → Bool
is_control c = ltb c 32 || eqb c 127

abbrev fragment_ok : Option String → Option String
fragment_ok none = some ""
fragment_ok (some f) = unescape any_byte any_byte f

-- `Parse`
unfoldable pub parse : String → Option Url
unfolding cut all_codes get_scheme parse_rest unescape
parse s =
    let (main, fragment) = cut b'#' s in
    if all_codes (λ c. not (is_control c)) main
    then (do url ← of_scan main (get_scheme true main); _ ← fragment_ok fragment; some url)
    else none

-- `String` of a URL with only a scheme, a host and a path.
unfoldable pub print : Url → String
unfolding escape keeps_host keeps_path
print u =
    let head = if u.scheme == "" then "" else String.◌++◌ u.scheme ":" in
    let path = escape keeps_path u.path in
    let slashes =
      if u.scheme == "" && u.host == ""
      then ""
      else if u.host == "" && u.path == ""
      then ""
      else "//" in
    let gap = if path == "" || starts_with path "/" || u.host == "" then "" else "/" in
    String.◌++◌ head
      (String.◌++◌ slashes (String.◌++◌ (escape keeps_host u.host) (String.◌++◌ gap path)))

abbrev without_port : String → Option (String × String) → String
without_port host none = host
without_port host (some (h, port)) = if all_codes is_digit port then h else host

abbrev inner_of : String → Option (String × String) → String
inner_of host (some (inner, [])) = inner
inner_of host _ = host

abbrev unbracketed : String → String
unbracketed [] = []
unbracketed (c ∷ s) = if eqb (code c) b'[' then inner_of (c ∷ s) (cut_last b']' s) else c ∷ s

-- `Hostname`: the host without its port and without the brackets of an IPv6 literal.
unfoldable pub hostname : Url → String
unfolding cut_last all_codes
hostname u = unbracketed (without_port u.host (cut_last b':' u.host))
