-- ===== src/Text/Laws.antt =====
-- Trimming is idempotent, and case-insensitive equality is an equivalence, whatever the case table.
use Prim.Native.Char.{Char, code}
use Prim.Native.String.{[], ◌∷◌}
use spliit_mcp.Prelude.{
  ℕ, String, ◌≡◌, refl, ap, ◌∙◌, Bool, true, false, Bool-cases, inl, inr, arith,
}
use spliit_mcp.Text.{is_space, trim_left, trim_right, cons_trimmed, trim_space, equal_fold}

module _ (p : ℕ → Bool) where
  trim_right-cons_trimmed :
      (c : Char) (s : String)
      → trim_right p s ≡ s
      → trim_right p (cons_trimmed p c s) ≡ cons_trimmed p c s
  unfolding trim_right cons_trimmed
  trim_right-cons_trimmed c [] h = elim (Bool-cases (p (code c))) [
    | inl dropped ↦ rw dropped refl
    | inr kept ↦ rw kept (rw kept refl)
  ]
  trim_right-cons_trimmed c (d ∷ s) h = rw h refl

  pub trim_right_idem : (s : String) → trim_right p (trim_right p s) ≡ trim_right p s
  unfolding trim_right
  trim_right_idem [] = refl
  trim_right_idem (c ∷ s) = trim_right-cons_trimmed c (trim_right p s) (trim_right_idem s)

  -- A text that starts with no dropped character.
  abbrev IsLeftTrimmed : String → Type 0
  IsLeftTrimmed [] = Unit
  IsLeftTrimmed (c ∷ s) = p (code c) ≡ false

  trim_left-IsLeftTrimmed : (s : String) → IsLeftTrimmed (trim_left p s)
  unfolding trim_left
  trim_left-IsLeftTrimmed [] = tt
  trim_left-IsLeftTrimmed (c ∷ s) = elim (Bool-cases (p (code c))) [
    | inl dropped ↦ rw dropped (trim_left-IsLeftTrimmed s)
    | inr kept ↦ rw kept kept
  ]

  cons_trimmed-IsLeftTrimmed :
      (c : Char) (s : String) → p (code c) ≡ false → IsLeftTrimmed (cons_trimmed p c s)
  unfolding cons_trimmed
  cons_trimmed-IsLeftTrimmed c [] h = rw h h
  cons_trimmed-IsLeftTrimmed c (d ∷ s) h = h

  trim_right-IsLeftTrimmed : (s : String) → IsLeftTrimmed s → IsLeftTrimmed (trim_right p s)
  unfolding trim_right
  trim_right-IsLeftTrimmed [] h = tt
  trim_right-IsLeftTrimmed (c ∷ s) h = cons_trimmed-IsLeftTrimmed c (trim_right p s) h

  trim_left_of_IsLeftTrimmed : (s : String) → IsLeftTrimmed s → trim_left p s ≡ s
  unfolding trim_left
  trim_left_of_IsLeftTrimmed [] h = refl
  trim_left_of_IsLeftTrimmed (c ∷ s) h = rw h refl

-- Trimming a second time changes nothing.
pub trim_space_idem : (s : String) → trim_space (trim_space s) ≡ trim_space s
unfolding trim_space
trim_space_idem s =
    ap (trim_right is_space) (
      trim_left_of_IsLeftTrimmed is_space _
        (trim_right-IsLeftTrimmed is_space _ (trim_left-IsLeftTrimmed is_space s)))
    ∙ trim_right_idem is_space (trim_left is_space s)

module _ (fold : ℕ → ℕ) where
  pub equal_fold_refl : (s : String) → equal_fold fold s s ≡ true
  unfolding equal_fold
  equal_fold_refl [] = refl
  equal_fold_refl (c ∷ s) = ground (arith, equal_fold_refl s)

  pub equal_fold_sym : (s t : String) → equal_fold fold s t ≡ true → equal_fold fold t s ≡ true
  unfolding equal_fold
  equal_fold_sym [] [] h = refl
  equal_fold_sym (c ∷ s) (d ∷ t) h = ground (arith, equal_fold_sym s t)
  equal_fold_sym [] (d ∷ t) h = cc
  equal_fold_sym (c ∷ s) [] h = cc

  pub equal_fold_trans :
      (s t u : String)
      → equal_fold fold s t ≡ true
      → equal_fold fold t u ≡ true
      → equal_fold fold s u ≡ true
  unfolding equal_fold
  equal_fold_trans [] [] [] h k = refl
  equal_fold_trans (c ∷ s) (d ∷ t) (e ∷ u) h k = ground (arith, equal_fold_trans s t u)
  equal_fold_trans [] (d ∷ t) u h k = cc
  equal_fold_trans (c ∷ s) [] u h k = cc
  equal_fold_trans [] [] (e ∷ u) h k = cc
  equal_fold_trans (c ∷ s) (d ∷ t) [] h k = cc
