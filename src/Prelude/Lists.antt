-- ===== src/Prelude/Lists.antt =====
-- Lists measured by native numbers, and tests and predicates over all their items.
use Prim.Native.Nat.{ℕ, zero, suc, ◌+◌}
use mathlib.Core.Path.{◌≡◌, refl, subst}
use mathlib.Core.Bool.{Bool, true, false, ◌||◌, ◌&&◌}
use mathlib.Core.Logic.{inl, inr}
use mathlib.Core.Option.{Option, none, some}
use mathlib.Core.List.{List, [], ◌∷◌, ◌++◌, Memᴰ}
use native.Mathlib.Omega.{arith}
use spliit_mcp.Prelude.Tests.{if◌then◌else◌, Bool-cases}

module _ {ℓ} {A : Type ℓ} where
  abbrev pub length : List A → ℕ
  length [] = 0
  length (x ∷ xs) = suc (length xs)

  abbrev pub take : ℕ → List A → List A
  take zero xs = []
  take (suc n) [] = []
  take (suc n) (x ∷ xs) = x ∷ take n xs

  abbrev pub drop : ℕ → List A → List A
  drop zero xs = xs
  drop (suc n) [] = []
  drop (suc n) (x ∷ xs) = drop n xs

  pub length-append : (xs ys : List A) → length (xs ++ ys) ≡ length xs + length ys
  length-append [] ys = omega arith
  length-append (x ∷ xs) ys = omega (arith, length-append xs ys)

  -- The items that pass a Boolean test, in order.
  unfoldable pub keep : (A → Bool) → List A → List A
  keep p [] = []
  keep p (x ∷ xs) = if p x then x ∷ keep p xs else keep p xs

  -- Whether some item passes.
  unfoldable pub any : (A → Bool) → List A → Bool
  any p [] = false
  any p (x ∷ xs) = p x || any p xs

  -- The first item that passes.
  unfoldable pub find_first : (A → Bool) → List A → Option A
  find_first p [] = none
  find_first p (x ∷ xs) = if p x then some x else find_first p xs

  pub keep-append : (p : A → Bool) (xs ys : List A) → keep p (xs ++ ys) ≡ keep p xs ++ keep p ys
  unfolding keep
  keep-append p [] ys = refl
  keep-append p (x ∷ xs) ys = ground (arith, keep-append p xs ys)

module _ {ℓ κ} {A : Type ℓ} (P : A → Type κ) where
  -- Every item has the property.
  abbrev pub All : List A → Type κ
  All [] = Unit
  All (x ∷ xs) = P x × All xs

  pub All-append : (xs ys : List A) → All xs → All ys → All (xs ++ ys)
  All-append [] ys h k = k
  All-append (x ∷ xs) ys h k = (h.0, All-append xs ys h.1 k)

  pub All-keep : (p : A → Bool) (xs : List A) → All xs → All (keep p xs)
  unfolding keep
  All-keep p [] h = h
  All-keep p (x ∷ xs) h = ground (arith, All-keep p xs h.1)

-- `any` as a statement about every item, and how it meets the other list functions.
module _ {ℓ} {A : Type ℓ} (p : A → Bool) where
  pub All-of-any : (xs : List A) → any p xs ≡ false → All (λ x. p x ≡ false) xs
  unfolding any
  All-of-any [] h = tt
  All-of-any (x ∷ xs) h = (ground arith, All-of-any xs (ground arith))

  pub any-of-All : (xs : List A) → All (λ x. p x ≡ false) xs → any p xs ≡ false
  unfolding any
  any-of-All [] h = refl
  any-of-All (x ∷ xs) h = rw h.0 (any-of-All xs h.1)

  -- What `find_first` returns passes the test.
  pub find_first-passes : (xs : List A) (x : A) → find_first p xs ≡ some x → p x ≡ true
  unfolding find_first
  find_first-passes [] x h = cc
  find_first-passes (y ∷ ys) x h = elim (Bool-cases (p y)) [
    | inl found ↦ let e : y ≡ x = ground arith in subst (λ z. p z ≡ true) e found
    | inr other ↦ find_first-passes ys x (ground arith)
  ]

  pub find_first-none : (xs : List A) → find_first p xs ≡ none → any p xs ≡ false
  unfolding find_first any
  find_first-none [] h = refl
  find_first-none (y ∷ ys) h = elim (Bool-cases (p y)) [
    | inl found ↦ ground arith
    | inr other ↦ rw other (find_first-none ys (ground arith))
  ]

  -- What `find_first` returns has whatever every item has.
  pub All-find_first {κ} :
      (P : A → Type κ) (xs : List A) (x : A) → All P xs → find_first p xs ≡ some x → P x
  unfolding find_first
  All-find_first P [] x a h = cc
  All-find_first P (y ∷ ys) x a h = elim (Bool-cases (p y)) [
    | inl found ↦ let e : y ≡ x = ground arith in subst P e a.0
    | inr other ↦ All-find_first P ys x a.1 (ground arith)
  ]

-- `any` finds what is listed.
pub any-of-mem {ℓ} :
    {A : Type ℓ} (p : A → Bool) {x : A} {xs : List A} → Memᴰ x xs → p x ≡ true → any p xs ≡ true
unfolding any
any-of-mem p {x} (Memᴰ.head e) h = rw (subst (λ y. p y ≡ true) e h) refl
any-of-mem p (Memᴰ.tail m) h = ground (arith, any-of-mem p m h)

module _ {ℓ} {A : Type ℓ} (p : A → Bool) where
  pub find_first-mem : (xs : List A) (x : A) → find_first p xs ≡ some x → Memᴰ x xs
  unfolding find_first
  find_first-mem [] x h = cc
  find_first-mem (y ∷ ys) x h = elim (Bool-cases (p y)) [
    | inl found ↦ let e : x ≡ y = ground arith in Memᴰ.head e
    | inr other ↦ Memᴰ.tail (find_first-mem ys x (ground arith))
  ]

  pub find_first-of-none : (xs : List A) → any p xs ≡ false → find_first p xs ≡ none
  unfolding find_first any
  find_first-of-none [] h = refl
  find_first-of-none (y ∷ ys) h = ground (arith, find_first-of-none ys)

  -- A stronger test finds nothing where the weaker one finds nothing.
  pub any-weaker :
      (q : A → Bool) (xs : List A) → any p xs ≡ false → any (λ x. p x && q x) xs ≡ false
  unfolding any
  any-weaker q [] h = refl
  any-weaker q (y ∷ ys) h = ground (arith, any-weaker q ys)
