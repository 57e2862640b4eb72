-- ===== src/Tools/GroupForm.antt =====
-- `buildGroupForm` of internal/mcp/tools.go: the edits of update_group, merged into the group's
-- current state. `fold` is the case table of strings.EqualFold.
pub mod Kept
use spliit_mcp.Prelude.{
  ℕ, String, Bool, not, ◌&&◌, List, [], ◌∷◌, ◌++◌, Option, none, some, map, ◌==◌, any, keep,
  if◌then◌else◌,
}
use spliit_mcp.Text.{trim_space, is_blank, equal_fold}
use spliit_mcp.Spliit.Model.{Participant, Group, GroupFormParticipant, GroupForm}
use spliit_mcp.Spliit.Participants.{
  first_where, same_name, find_participant_by_name, participant_names, present,
}
use spliit_mcp.Tools.Outcome.{
  Outcome, done, fail, ◌>>=◌, ◌>>◌, unknown_participant, empty_new_name, is_you, has_expenses,
  already_in_group, no_participant_left, nothing_to_change,
}

-- renameParticipant
pub record Rename : Type 0 where
  pub from : String
  pub to : String

-- updateGroupInput, less the group's reference
pub record Edits : Type 0 where
  pub name : String
  pub currency : String
  pub add : List String
  pub remove : List String
  pub rename : List Rename

-- The entries of `changes`, from which the summary is built.
pub data Change : Type 0 where
  renamed_group currency_set removed added : String → Change
  renamed : String → String → Change

-- The local type `entry`.
pub record Entry : Type 0 where
  pub id : String
  pub name : String

-- A membership test in a `map[string]bool`.
unfoldable pub has : List String → String → Bool
unfolding any
has ids id = any (λ i. i == id) ids

-- `if name := strings.TrimSpace(in.Name); name != "" && name != group.Name`
unfoldable pub changed : String → String → Bool
unfolding trim_space
changed given current = not (trim_space given == "") && not (trim_space given == current)

-- `current`: everyone in the group.
unfoldable pub entries : List Participant → List Entry
entries [] = []
entries (p ∷ ps) = record { id = p.id; name = p.name } ∷ entries ps

-- `for i := range current { if current[i].id == p.ID { … } }`
unfoldable pub rename_entry : String → String → List Entry → List Entry
rename_entry id to [] = []
rename_entry id to (e ∷ es) =
    (if e.id == id then record e { name = to } else e) ∷ rename_entry id to es

abbrev pub found_or : String → List String → Option Participant → Outcome Participant
found_or name names none = fail (unknown_participant name names)
found_or name names (some p) = done p

-- The entries that are not removed, with their IDs.
unfoldable pub kept : List String → List Entry → List GroupFormParticipant
unfolding has
kept gone [] = []
kept gone (e ∷ es) =
    if has gone e.id then kept gone es else record { id = some e.id; name = e.name } ∷ kept gone es

-- The name and the currency of the form, and what they add to `changes`.
abbrev pub field_change : (String → Change) → String → String → List Change
field_change change given current =
    if changed given current then change (trim_space given) ∷ [] else []

abbrev pub field_value : String → String → String
field_value given current = if changed given current then trim_space given else current

abbrev pub first_changes : Edits → Group → List Change
first_changes edits group =
    field_change renamed_group edits.name group.name
    ++ field_change currency_set edits.currency group.currency

-- The two checks at the end.
abbrev pub check_form :
    List GroupFormParticipant → List Change → GroupForm → Outcome (GroupForm × List Change)
check_form [] changes form = fail no_participant_left
check_form (p ∷ ps) [] form = fail nothing_to_change
check_form (p ∷ ps) (c ∷ cs) form = done (form, c ∷ cs)

module _ (fold : ℕ → ℕ) where
  -- `findByName` of internal/mcp/tools.go
  unfoldable pub find_by_name : Group → String → Outcome Participant
  unfolding find_participant_by_name participant_names
  find_by_name group name =
      found_or name (participant_names group) (find_participant_by_name fold group name)

  -- The loop over `in.Rename`.
  unfoldable pub apply_renames :
      Group → List Rename → List Entry → List Change → Outcome (List Entry × List Change)
  unfolding find_by_name rename_entry is_blank
  apply_renames group [] current changes = done (current, changes)
  apply_renames group (rn ∷ rest) current changes = do
    p ← find_by_name group rn.from
    let to = trim_space rn.to
    if to == ""
        then fail (empty_new_name p.name)
        else apply_renames group rest (rename_entry p.id to current)
            (changes ++ renamed p.name to ∷ [])

  -- The loop over `in.Remove`; the result lists the keys of `removed`.
  unfoldable pub apply_removes :
      Group
      → List String
      → String
      → List String
      → List String
      → List Change
      → Outcome (List String × List Change)
  unfolding find_by_name has
  apply_removes group with_expenses me [] gone changes = done (gone, changes)
  apply_removes group with_expenses me (name ∷ rest) gone changes = do
    p ← find_by_name group name
    if p.id == me
        then fail (is_you p.name)
        else if has with_expenses p.id
        then fail (has_expenses p.name)
        else apply_removes group with_expenses me rest (p.id ∷ gone)
            (changes ++ removed p.name ∷ [])

  -- The loop over `in.Add`, on the form's participants.
  unfoldable pub apply_adds :
      List String
      → List GroupFormParticipant
      → List Change
      → Outcome (List GroupFormParticipant × List Change)
  unfolding any equal_fold trim_space
  apply_adds [] form changes = done (form, changes)
  apply_adds (given ∷ rest) form changes =
      let name = trim_space given in
      let skipped = apply_adds rest form changes in
      let longer =
        apply_adds rest (form ++ record { id = none; name = name } ∷ [])
          (changes ++ added name ∷ []) in
      if name == ""
      then skipped
      else if any (λ (p : GroupFormParticipant). equal_fold fold (trim_space p.name) name) form
      then fail (already_in_group name)
      else longer

  -- `buildGroupForm`
  unfoldable pub build_group_form :
      Edits → Group → List String → String → Outcome (GroupForm × List Change)
  unfolding changed trim_space entries apply_renames apply_removes apply_adds kept present
  build_group_form edits group with_expenses me = do
    let changes = first_changes edits group
    (current, changes') ←
        apply_renames group edits.rename (entries (present group.participants)) changes
    (gone, changes'') ← apply_removes group with_expenses me edits.remove [] changes'
    (participants, all_changes) ← apply_adds edits.add (kept gone current) changes''
    check_form participants all_changes (record {
      name = field_value edits.name group.name;
      information = group.information;
      currency = field_value edits.currency group.currency;
      currency_code = group.currency_code;
      participants = participants;
    })
