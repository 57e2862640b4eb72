-- ===== src/Tools/GroupForm/Kept.antt =====
-- What the form of update_group keeps: the IDs of everyone who stays, and the two rules on removal.
use mathlib.Core.List.{map-append, append_assoc, append-nil}
use spliit_mcp.Prelude.{
  ℕ, String, ◌≡◌, ◌≢◌, refl, sym, ap, ◌∙◌, false, not, List, [], ◌∷◌, ◌++◌, Option, none, some, map,
  arith, eq_iff, ◌==◌, any, keep, All, Bool-cases, inl, inr,
}
use spliit_mcp.Text.{trim_space, equal_fold}
use spliit_mcp.Spliit.Model.{Participant, Group, GroupFormParticipant, GroupForm}
use spliit_mcp.Spliit.Participants.{present}
use spliit_mcp.Tools.Outcome.{done, >>=-eq-done}
use spliit_mcp.Tools.GroupForm.{
  Rename, Edits, Change, Entry, has, entries, rename_entry, find_by_name, apply_renames,
  apply_removes, apply_adds, kept, first_changes, check_form, build_group_form,
}

abbrev entry_ids : List Entry → List String
entry_ids = map (λ (e : Entry). e.id)

abbrev pub form_ids : List GroupFormParticipant → List (Option String)
form_ids = map (λ (p : GroupFormParticipant). p.id)

abbrev pub group_ids : Group → List String
group_ids group = map (λ (p : Participant). p.id) (present group.participants)

-- Nobody is removed who has expenses, nor the caller.
abbrev MayGo : List String → String → String → Type 0
MayGo with_expenses me id = (id ≢ me) × (has with_expenses id ≡ false)

-- The participants of a form, against those of the group: `gone` are the removed ones, who are
-- neither the caller nor have expenses; everyone else keeps their ID, in the group's order, and new
-- participants without an ID follow.
pub record Merges (group : Group) (with_expenses : List String) (me : String)
    (ps : List GroupFormParticipant) : Type 0 where
  pub gone : List String
  pub new : List (Option String)
  pub may_go : All (λ id. (id ≢ me) × (has with_expenses id ≡ false)) gone
  pub new_unnamed : All (λ (o : Option String). o ≡ none) new
  pub merged :
      form_ids ps ≡ map (λ id. some id) (keep (λ id. not (has gone id)) (group_ids group)) ++ new

ids-rename_entry :
    (id to : String) (es : List Entry) → entry_ids (rename_entry id to es) ≡ entry_ids es
unfolding rename_entry
ids-rename_entry id to [] = refl
ids-rename_entry id to (e ∷ es) = elim (Bool-cases (e.id == id)) [
  | inl same ↦ rw same (ap (λ l. e.id ∷ l) (ids-rename_entry id to es))
  | inr other ↦ rw other (ap (λ l. e.id ∷ l) (ids-rename_entry id to es))
]

ids-entries : (ps : List Participant) → entry_ids (entries ps) ≡ map (λ (p : Participant). p.id) ps
unfolding entries
ids-entries [] = refl
ids-entries (p ∷ ps) = ap (λ l. p.id ∷ l) (ids-entries ps)

ids-kept :
    (gone : List String) (es : List Entry)
    → form_ids (kept gone es) ≡ map (λ id. some id) (keep (λ id. not (has gone id)) (entry_ids es))
unfolding kept keep
ids-kept gone [] = refl
ids-kept gone (e ∷ es) = elim (Bool-cases (has gone e.id)) [
  | inl out ↦ rw out (ids-kept gone es)
  | inr stays ↦ rw stays (ap (λ l. some e.id ∷ l) (ids-kept gone es))
]

check_form-eq :
    (ps : List GroupFormParticipant) (cs : List Change) (f form : GroupForm) (changes : List Change)
    → check_form ps cs f ≡ done (form, changes)
    → form ≡ f
check_form-eq [] cs f form changes h = cc
check_form-eq (p ∷ ps) [] f form changes h = cc
check_form-eq (p ∷ ps) (c ∷ cs) f form changes h = cc

module _ (fold : ℕ → ℕ) where
  ids-apply_renames :
      (group : Group) (rs : List Rename) (es es' : List Entry) (cs cs' : List Change)
      → apply_renames fold group rs es cs ≡ done (es', cs')
      → entry_ids es' ≡ entry_ids es
  unfolding apply_renames
  ids-apply_renames group [] es es' cs cs' h = ground arith
  ids-apply_renames group (rn ∷ rs) es es' cs cs' h =
      let (p, found, rest) = >>=-eq-done (find_by_name fold group rn.from) _ h in
      elim (Bool-cases (trim_space rn.to == "")) [
        | inl empty ↦ cc (rw empty at rest)
        | inr named ↦
            ids-apply_renames group rs (rename_entry p.id (trim_space rn.to) es) es' _ cs'
              (rw named at rest)
            ∙ ids-rename_entry p.id (trim_space rn.to) es
      ]

  MayGo-apply_removes :
      (group : Group) (we : List String) (me : String) (names gone gone' : List String)
      (cs cs' : List Change)
      → All (MayGo we me) gone
      → apply_removes fold group we me names gone cs ≡ done (gone', cs')
      → All (MayGo we me) gone'
  unfolding apply_removes
  MayGo-apply_removes group we me [] gone gone' cs cs' a h =
      let e : gone ≡ gone' = ground arith in rw (← e) a
  MayGo-apply_removes group we me (name ∷ names) gone gone' cs cs' a h =
      let (p, found, rest) = >>=-eq-done (find_by_name fold group name) _ h in
      elim (Bool-cases (p.id == me)) [
        | inl caller ↦ cc (rw caller at rest)
        | inr other ↦ elim (Bool-cases (has we p.id)) [
          | inl busy ↦ cc (rw (other, busy) at rest)
          | inr idle ↦
              MayGo-apply_removes group we me names (p.id ∷ gone) gone' _ cs'
                ((ground (arith, eq_iff p.id me), idle), a) (rw (other, idle) at rest)
        ]
      ]

  ids-apply_adds :
      (names : List String) (ps ps' : List GroupFormParticipant) (cs cs' : List Change)
      → apply_adds fold names ps cs ≡ done (ps', cs')
      → (new : List (Option String)) × All (λ (o : Option String). o ≡ none) new
        × (form_ids ps' ≡ form_ids ps ++ new)
  unfolding apply_adds
  ids-apply_adds [] ps ps' cs cs' h =
      let e : ps ≡ ps' = ground arith in ([], tt, rw (← e) (sym (append-nil (form_ids ps))))
  ids-apply_adds (given ∷ names) ps ps' cs cs' h =
      let name = trim_space given in
      elim (Bool-cases (name == "")) [
        | inl empty ↦ ids-apply_adds names ps ps' cs cs' (rw empty at h)
        | inr named ↦
            elim (Bool-cases
              (any (λ (p : GroupFormParticipant). equal_fold fold (trim_space p.name) name) ps)) [
                | inl taken ↦ cc (rw (named, taken) at h)
                | inr free ↦
                    let (new, a, e) =
                      ids-apply_adds names (ps ++ record { id = none; name = name } ∷ []) ps' _ cs'
                        (rw (named, free) at h) in
                    (none ∷ new, (refl, a), e ∙ (simp (map-append, append_assoc)))
              ]
      ]

  -- The form that `buildGroupForm` returns merges the edits into the group: whoever stays keeps
  -- their ID, in the group's order; nobody is removed who has expenses, nor the caller; every other
  -- entry of the form is new, without an ID.
  pub build_group_form-Merges :
      (edits : Edits) (group : Group) (with_expenses : List String) (me : String) (form : GroupForm)
      (changes : List Change)
      → build_group_form fold edits group with_expenses me ≡ done (form, changes)
      → Merges group with_expenses me form.participants
  unfolding build_group_form
  build_group_form-Merges edits group we me form changes h =
      let start = first_changes edits group in
      let ((es, cs), renames, h1) =
        >>=-eq-done
          (apply_renames fold group edits.rename (entries (present group.participants)) start) _
          h in
      let ((gone, cs1), removes, h2) =
        >>=-eq-done (apply_removes fold group we me edits.remove [] cs) _ h1 in
      let ((ps2, cs2), adds, h3) =
        >>=-eq-done (apply_adds fold edits.add (kept gone es) cs1) _ h2 in
      let (new, unnamed, ids) = ids-apply_adds edits.add (kept gone es) ps2 cs1 cs2 adds in
      record {
        gone = gone;
        new = new;
        may_go = MayGo-apply_removes group we me edits.remove [] gone cs cs1 tt removes;
        new_unnamed = unnamed;
        merged =
            ap (λ (f : GroupForm). form_ids f.participants)
              (check_form-eq ps2 cs2 _ form changes h3)
            ∙ ids
            ∙ ap (λ l. l ++ new)
                (ids-kept gone es
                  ∙ ap (λ l. map (λ id. some id) (keep (λ id. not (has gone id)) l))
                      (ids-apply_renames group edits.rename _ es start cs renames
                        ∙ ids-entries (present group.participants)));
      }
