-- ===== src/Store/Consistent/Updates.antt =====
-- `UpdateGroup` keeps the unique keys: the statement is refused where the new row would clash.
use spliit_mcp.Prelude.{
  String, ◌≡◌, refl, ◌∙◌, true, false, List, [], ◌∷◌, arith, eq_iff, ◌==◌, ◌&&◌, not, any, All,
  All-of-any, Bool-cases, inl, inr, if◌then◌else◌,
}
use spliit_mcp.Store.Rows.{Group}
use spliit_mcp.Store.Groups.{clashes, is_row, update_groups, update_clashes}
use spliit_mcp.Store.Consistent.{Distinct}
use spliit_mcp.Store.Consistent.Groups.{clashes_sym}

module _ (f : Group → Group) (sub id : String) where
  abbrev updated : Group → Group
  updated g = if is_row sub id g then f g else g

  -- If `g` is the row that changes, its new version does not clash with `h`, a row of another ID.
  abbrev Safe : Group → Group → Type 0
  Safe g h = is_row sub id g ≡ true → (h.id == g.id) ≡ false → clashes (f g) h ≡ false

  abbrev SafePairs : List Group → Type 0
  SafePairs [] = Unit
  SafePairs (g ∷ gs) = All (λ h. Safe g h × Safe h g) gs × SafePairs gs

  not_same_row :
      (g h : Group) → clashes g h ≡ false → is_row sub id g ≡ true → is_row sub id h ≡ true → ⊥
  unfolding clashes is_row
  not_same_row g h c rg rh = ground (arith, eq_iff g.id id, eq_iff h.id id, eq_iff g.id h.id)

  other_id :
      (g h : Group) → clashes g h ≡ false → ((h.id == g.id) ≡ false) × ((g.id == h.id) ≡ false)
  unfolding clashes
  other_id g h c = ground (arith, eq_iff g.id h.id, eq_iff h.id g.id)

  updated-clashes :
      (g h : Group)
      → clashes g h ≡ false
      → Safe g h
      → Safe h g
      → clashes (updated g) (updated h) ≡ false
  updated-clashes g h c sg sh = elim (Bool-cases (is_row sub id g)) [
    | inl rg ↦ elim (Bool-cases (is_row sub id h)) [
      | inl rh ↦ absurd (not_same_row g h c rg rh)
      | inr nh ↦ rw (rg, nh) (sg rg (other_id g h c).0)
    ]
    | inr ng ↦ elim (Bool-cases (is_row sub id h)) [
      | inl rh ↦ rw (ng, rh) (clashes_sym g (f h) ∙ sh rh (other_id g h c).1)
      | inr nh ↦ rw (ng, nh) c
    ]
  ]

  any-updated :
      (g : Group) (gs : List Group)
      → All (λ h. Safe g h × Safe h g) gs
      → any (clashes g) gs ≡ false
      → any (clashes (updated g)) (update_groups f sub id gs) ≡ false
  unfolding any update_groups
  any-updated g [] s h = refl
  any-updated g (k ∷ gs) s h =
      let c : clashes g k ≡ false = ground arith in
      rw (updated-clashes g k c s.0.0 s.0.1) (any-updated g gs s.1 (ground arith))

  Distinct-updated :
      (gs : List Group)
      → SafePairs gs
      → Distinct clashes gs
      → Distinct clashes (update_groups f sub id gs)
  unfolding update_groups
  Distinct-updated [] s h = tt
  Distinct-updated (g ∷ gs) s h = (any-updated g gs s.0 h.0, Distinct-updated gs s.1 h.1)

  zip-Safe :
      (g : Group) (gs : List Group)
      → All (Safe g) gs
      → All (λ h. All (Safe h) (g ∷ gs)) gs
      → All (λ h. Safe g h × Safe h g) gs
  zip-Safe g gs a b = go gs a b
    where
      go :
          (hs : List Group)
          → All (Safe g) hs
          → All (λ h. All (Safe h) (g ∷ gs)) hs
          → All (λ h. Safe g h × Safe h g) hs
      go [] a b = tt
      go (h ∷ hs) a b = ((a.0, b.0.0), go hs a.1 b.1)

  drop_head :
      (g : Group) (gs hs : List Group)
      → All (λ h. All (Safe h) (g ∷ gs)) hs
      → All (λ h. All (Safe h) gs) hs
  drop_head g gs [] a = tt
  drop_head g gs (h ∷ hs) a = (a.0.1, drop_head g gs hs a.1)

  SafePairs-of-All : (gs : List Group) → All (λ g. All (Safe g) gs) gs → SafePairs gs
  SafePairs-of-All [] a = tt
  SafePairs-of-All (g ∷ gs) a =
      (zip-Safe g gs a.0.1 a.1, SafePairs-of-All gs (drop_head g gs gs a.1))

  Safe-of-any :
      (g : Group) (hs : List Group)
      → (is_row sub id g && any (λ (h : Group). not (h.id == g.id) && clashes (f g) h) hs) ≡ false
      → All (Safe g) hs
  unfolding any
  Safe-of-any g [] e = tt
  Safe-of-any g (h ∷ hs) e = (λ r o. ground arith, Safe-of-any g hs (ground arith))

  Safe-of-update_clashes :
      (gs hs : List Group)
      → All
          (λ (g : Group).
            (is_row sub id g && any (λ (h : Group). not (h.id == g.id) && clashes (f g) h) hs)
            ≡ false)
          gs
      → All (λ g. All (Safe g) hs) gs
  Safe-of-update_clashes [] hs a = tt
  Safe-of-update_clashes (g ∷ gs) hs a = (Safe-of-any g hs a.0, Safe-of-update_clashes gs hs a.1)

  pub update_groups-Distinct :
      (gs : List Group)
      → update_clashes f sub id gs ≡ false
      → Distinct clashes gs
      → Distinct clashes (update_groups f sub id gs)
  unfolding update_clashes
  update_groups-Distinct gs e h =
      Distinct-updated gs (SafePairs-of-All gs (Safe-of-update_clashes gs gs (All-of-any _ gs e))) h
