-- ===== src/Web/NewGroup/Distinct.antt =====
-- Who is in the form of a new group.
use spliit_mcp.Prelude.{
  ◌≤◌, String, ◌≡◌, refl, sym, ap, subst, Bool, true, false, List, [], ◌∷◌, Option, none, some,
  arith, eq_iff, eq_refl, ◌==◌, ◌||◌, any, Bool-cases, inl, inr, map, All,
}
use spliit_mcp.Text.{trim_space, byte_length}
use spliit_mcp.Spliit.Model.{GroupFormParticipant, GroupForm}
use spliit_mcp.Store.Consistent.{Distinct}
use spliit_mcp.Tools.GroupForm.{has}
use spliit_mcp.Web.NewGroup.{
  Built, built, refused, new_participant, is_short, first_short, checked_form, add_others,
  group_names, build_new_form,
}

All-weaker :
    {P Q : String → Type 0} → ((s : String) → P s → Q s) → (xs : List String) → All P xs → All Q xs
All-weaker f [] h = tt
All-weaker f (x ∷ xs) h = (f x h.0, All-weaker f xs h.1)

module _ (lower : String → String) where
  abbrev pub same : String → String → Bool
  same x y = lower x == lower y

  -- A name whose key was seen is not added.
  add_others-seen :
      (seen others : List String) (k : String)
      → has seen k ≡ true
      → any (λ y. k == lower y) (add_others lower seen others) ≡ false
  unfolding add_others any has
  add_others-seen seen [] k h = refl
  add_others-seen seen (given ∷ rest) k h =
      let other = trim_space given in
      elim (Bool-cases (other == "" || has seen (lower other))) [
        | inl skip ↦ rw skip (add_others-seen seen rest k h)
        | inr new ↦ rw new (
            ground (
              arith,
              eq_iff k (lower other),
              add_others-seen (lower other ∷ seen) rest k (ground (arith, h)),
            ))
      ]

  add_others-Distinct : (seen others : List String) → Distinct same (add_others lower seen others)
  unfolding add_others any has
  add_others-Distinct seen [] = tt
  add_others-Distinct seen (given ∷ rest) =
      let other = trim_space given in
      elim (Bool-cases (other == "" || has seen (lower other))) [
        | inl skip ↦ rw skip (add_others-Distinct seen rest)
        | inr new ↦ rw new (
          add_others-seen (lower other ∷ seen) rest (lower other) (rw eq_refl refl),
          add_others-Distinct (lower other ∷ seen) rest,
        )
      ]

  -- Every other who has a name is among the keys or among the names.
  abbrev Counted : List String → List String → String → Type 0
  Counted seen names other =
      ((trim_space other == "" || has seen (lower (trim_space other)))
        || any (same (trim_space other)) names)
      ≡ true

  Counted-more :
      (seen names : List String) (x s : String)
      → Counted (lower x ∷ seen) names s
      → Counted seen (x ∷ names) s
  unfolding any has
  Counted-more seen names x s h =
      ground
        (arith, eq_iff (lower x) (lower (trim_space s)), eq_iff (lower (trim_space s)) (lower x), h)

  add_others-Counted :
      (seen others names : List String)
      → names ≡ add_others lower seen others
      → All (Counted seen names) others
  unfolding add_others any has
  add_others-Counted seen [] names e = tt
  add_others-Counted seen (given ∷ rest) names e =
      let other = trim_space given in
      elim (Bool-cases (other == "" || has seen (lower other))) [
        | inl skip ↦ (rw skip refl, add_others-Counted seen rest names (rw skip at e))
        | inr new ↦
            let longer : names ≡ other ∷ add_others lower (lower other ∷ seen) rest = rw new at e in
            (
              rw (new, longer, eq_refl) refl,
              subst (λ l. All (Counted seen l) rest) (sym longer)
                  (All-weaker (Counted-more seen (add_others lower (lower other ∷ seen) rest) other)
                    rest (add_others-Counted (lower other ∷ seen) rest _ refl)),
            )
      ]

first_short-none :
    (names : List String) → first_short names ≡ none → All (λ n. 2 ≤ byte_length n) names
unfolding first_short is_short
first_short-none [] h = tt
first_short-none (n ∷ ns) h = (ground (arith, h), first_short-none ns (ground (arith, h)))

names_of-new :
    (names : List String)
    → map (λ (p : GroupFormParticipant). p.name) (map new_participant names) ≡ names
names_of-new [] = refl
names_of-new (n ∷ ns) = ap (λ l. n ∷ l) (names_of-new ns)

-- Who is in a form.
pub record Members (lower : String → String) (your_name : String) (others : List String)
    (form : GroupForm) : Type 0 where
  pub names : List String
  pub of_form : map (λ (p : GroupFormParticipant). p.name) form.participants ≡ your_name ∷ names
  pub distinct : Distinct (same lower) (your_name ∷ names)
  pub complete :
      All
        (λ o. ((trim_space o == "") || any (same lower (trim_space o)) (your_name ∷ names)) ≡ true)
        others
  pub long_enough : All (λ n. 2 ≤ byte_length n) (your_name ∷ names)
  pub long_name : 2 ≤ byte_length form.name

participants_of : Built → List GroupFormParticipant → List GroupFormParticipant
participants_of (built form) ps = form.participants
participants_of (refused x) ps = ps

name_of : Built → String → String
name_of (built form) n = form.name
name_of (refused x) n = n

form_of_checked :
    (short : Option String) (name currency : String) (names : List String) (form : GroupForm)
    → checked_form short name currency names ≡ built form
    → (short ≡ none)
      × (map (λ (p : GroupFormParticipant). p.name) form.participants ≡ names)
      × (2 ≤ byte_length form.name)
unfolding is_short participants_of name_of
form_of_checked (some s) name currency names form h = cc
form_of_checked none name currency names form h = elim (Bool-cases (is_short name)) [
  | inl short ↦ cc (rw short at h)
  | inr long ↦
      let e = rw long at h in
      let ps = ap (λ b. participants_of b []) e in
      let n = ap (λ b. name_of b "") e in
      (refl, rw (sym ps) (names_of-new names), rw (sym n) (ground (arith, long)))
]

-- A form that is built puts the caller first, holds no two names that are the same up to case, holds
-- the trimmed name of everybody else who has one up to case, and has no name, its own included, of
-- fewer than two bytes.
pub build_new_form-Members :
    (lower : String → String) (name currency your_name : String) (others : List String)
    (form : GroupForm)
    → build_new_form lower name currency your_name others ≡ built form
    → Members lower your_name others form
unfolding build_new_form group_names has any
build_new_form-Members lower name currency your_name others form h =
    let names = add_others lower (lower your_name ∷ []) others in
    let f =
      form_of_checked (first_short (your_name ∷ names)) name currency (your_name ∷ names) form h in
    record {
      names = names;
      of_form = f.1;
      distinct = (
        add_others-seen lower (lower your_name ∷ []) others (lower your_name) (rw eq_refl refl),
        add_others-Distinct lower (lower your_name ∷ []) others,
      );
      complete =
          All-weaker
            (λ o c. ground (
              arith,
              c,
              eq_iff (lower your_name) (lower (trim_space o)),
              eq_iff (lower (trim_space o)) (lower your_name),
            ))
            others (add_others-Counted lower (lower your_name ∷ []) others names refl);
      long_enough = first_short-none (your_name ∷ names) f.0;
      long_name = f.2;
    }
