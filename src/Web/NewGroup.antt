-- ===== src/Web/NewGroup.antt =====
-- `buildGroupForm` of internal/handlers/api.go: the form of a new group, with the caller first.
-- `lower` is strings.ToLower.
pub mod Distinct
use spliit_mcp.Prelude.{
  ℕ, String, Bool, not, ◌&&◌, ◌||◌, List, [], ◌∷◌, ◌++◌, Option, none, some, map, ◌==◌, any, ltb,
  if◌then◌else◌,
}
use spliit_mcp.Text.{trim_space, is_blank, byte_length}
use spliit_mcp.Spliit.Model.{GroupFormParticipant, GroupForm}
use spliit_mcp.Tools.GroupForm.{has}

-- The errors of buildGroupForm.
pub data NameRefusal : Type 0 where
  short_participant : String → NameRefusal
  short_group : NameRefusal

pub data Built : Type 0 where
  built : GroupForm → Built
  refused : NameRefusal → Built

abbrev pub new_participant : String → GroupFormParticipant
new_participant name = record { id = none; name = name }

-- `len(p.Name) < 2`
unfoldable pub is_short : String → Bool
unfolding byte_length
is_short name = ltb (byte_length name) 2

-- The first name that is too short.
unfoldable pub first_short : List String → Option String
unfolding is_short
first_short [] = none
first_short (n ∷ ns) = if is_short n then some n else first_short ns

unfoldable pub currency_or_usd : String → String
unfolding trim_space is_blank
currency_or_usd currency = if is_blank currency then "USD" else trim_space currency

-- The checks of the lengths, and the form.
abbrev pub checked_form : Option String → String → String → List String → Built
checked_form (some short) name currency names = refused (short_participant short)
checked_form none name currency names =
    if is_short name
    then refused short_group
    else built (record {
      name = name;
      information = none;
      currency = currency_or_usd currency;
      currency_code = none;
      participants = map new_participant names;
    })

module _ (lower : String → String) where
  -- The loop over the others, where `seen` lists the keys of the map.
  unfoldable pub add_others : List String → List String → List String
  unfolding trim_space has
  add_others seen [] = []
  add_others seen (given ∷ rest) =
      let other = trim_space given in
      let skipped = add_others seen rest in
      let longer = other ∷ add_others (lower other ∷ seen) rest in
      if other == "" || has seen (lower other) then skipped else longer

  -- The names of the participants.
  unfoldable pub group_names : String → List String → List String
  unfolding add_others
  group_names your_name others = your_name ∷ add_others (lower your_name ∷ []) others

  -- `buildGroupForm`
  unfoldable pub build_new_form : String → String → String → List String → Built
  unfolding group_names first_short currency_or_usd is_short
  build_new_form name currency your_name others =
      let names = group_names your_name others in
      checked_form (first_short names) name currency names
