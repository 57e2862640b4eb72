-- ===== src/Spliit/Links.antt =====
-- The address of a Spliit instance and the link of a group (internal/spliit/client.go): DeriveBaseURL,
-- WebURL, HostOf and ExtractGroupID.
use Prim.Native.Char.{Char, code}
use Prim.Native.String
use Prim.Native.String.{[], ◌∷◌}
use mathlib.Core.List
use mathlib.Core.Option
use spliit_mcp.Prelude.{
  ℕ, Bool, not, ◌&&◌, String, List, Option, none, some, eqb, ◌==◌, if◌then◌else◌,
}
use spliit_mcp.Text.{trim_space, trim_left, trim_right, contains, join}
use spliit_mcp.Text.Url.{Url, parse, print}

abbrev is_slash : ℕ → Bool
is_slash c = eqb c b'/'

-- strings.Trim at slashes
unfoldable pub trim_slashes : String → String
unfolding trim_left trim_right
trim_slashes s = trim_right is_slash (trim_left is_slash s)

abbrev onto_first : Char → List String → List String
onto_first c List.[] = List.◌∷◌ (c ∷ []) List.[]
onto_first c (List.◌∷◌ s rest) = List.◌∷◌ (c ∷ s) rest

-- strings.Split at slashes
unfoldable pub split_slashes : String → List String
split_slashes [] = List.◌∷◌ "" List.[]
split_slashes (c ∷ s) =
    let rest = split_slashes s in if is_slash (code c) then List.◌∷◌ "" rest else onto_first c rest

-- strings.TrimSuffix
unfoldable pub trim_suffix : String → String → String
trim_suffix [] suffix = []
trim_suffix (c ∷ s) suffix =
    let rest = trim_suffix s suffix in if c ∷ s == suffix then [] else c ∷ rest

-- The segments in front of the first "groups".
unfoldable pub before_groups : List String → Option (List String)
before_groups List.[] = none
before_groups (List.◌∷◌ part parts) =
    let rest = before_groups parts in
    if part == "groups" then some List.[] else Option.map (List.◌∷◌ part) rest

abbrev base_of : Url → Option (List String) → String
base_of url none = ""
base_of url (some prefix) = print (record {
  scheme = url.scheme;
  host = url.host;
  path = String.◌++◌ "/" (join "/" (List.◌++◌ prefix (List.◌∷◌ "api" (List.◌∷◌ "trpc" List.[]))));
})

abbrev derive_from : Option Url → String
derive_from none = ""
derive_from (some url) =
    if url.host == ""
    then ""
    else if not (url.scheme == "http") && not (url.scheme == "https")
    then ""
    else base_of url (before_groups (split_slashes (trim_slashes url.path)))

-- `DeriveBaseURL`
unfoldable pub derive_base_url : String → String
unfolding trim_space contains parse before_groups split_slashes trim_slashes print join
derive_base_url input =
    let input = trim_space input in
    if not (contains input "://") then "" else derive_from (parse input)

-- The subpath of an instance, from the path of its base URL.
unfoldable pub subpath : String → String
unfolding trim_slashes trim_suffix
subpath path = trim_slashes (trim_suffix (trim_slashes path) "api/trpc")

abbrev segments : String → String → List String
segments prefix group_id =
    let last = List.◌∷◌ "groups" (List.◌∷◌ group_id List.[]) in
    if prefix == "" then last else List.◌∷◌ prefix last

abbrev link_from : String → Option Url → String
link_from group_id none = ""
link_from group_id (some url) =
    if url.host == ""
    then ""
    else print (record {
      scheme = url.scheme;
      host = url.host;
      path = String.◌++◌ "/" (join "/" (segments (subpath url.path) group_id));
    })

-- `WebURL`
unfoldable pub web_url : String → String → String
unfolding trim_space parse subpath join print
web_url base_url group_id =
    if group_id == "" then "" else link_from group_id (parse (trim_space base_url))

abbrev shown_host : String → Option Url → String
shown_host base_url none = base_url
shown_host base_url (some url) =
    if url.host == ""
    then base_url
    else if subpath url.path == ""
    then url.host
    else String.◌++◌ url.host (String.◌++◌ "/" (subpath url.path))

-- `HostOf`
unfoldable pub host_of : String → String
unfolding parse subpath
host_of base_url = shown_host base_url (parse base_url)

-- The segment behind the first "groups" that has one.
unfoldable pub after_groups : List String → Option String
after_groups (List.◌∷◌ part (List.◌∷◌ next parts)) =
    let rest = after_groups (List.◌∷◌ next parts) in if part == "groups" then some next else rest
after_groups parts = none

abbrev or_input : String → Option String → String
or_input input none = input
or_input input (some id) = id

abbrev id_from : String → Option Url → String
id_from input none = input
id_from input (some url) = or_input input (after_groups (split_slashes (trim_slashes url.path)))

-- `ExtractGroupID`
unfoldable pub extract_group_id : String → String
unfolding contains parse after_groups split_slashes trim_slashes
extract_group_id input = if not (contains input "/") then input else id_from input (parse input)
