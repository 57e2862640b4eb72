-- ===== src/Store/Consistent.antt =====
-- The well-formedness of the tables: the constraints of internal/db/migrations, and the promise of
-- internal/store/store.go that a default group is one of the user's own.
pub mod Users
pub mod Groups
pub mod Updates
pub mod Writes
pub mod Sessions
use spliit_mcp.Prelude.{
  String, ◌≡◌, refl, Bool, true, false, List, [], ◌∷◌, Option, none, some, ◌==◌, any, All, is_some,
  find_first, any-of-mem, subst, ap, sym, ◌∙◌, Bool-cases, inl, inr,
}
use mathlib.Core.List.{Memᴰ}
use mathlib.Core.Bool.{false≢true}
use spliit_mcp.Store.Rows.{User, Group, Session, Db}
use spliit_mcp.Store.Users.{find_user, owns_group}
use spliit_mcp.Store.Groups.{clashes}

-- No two items clash.
abbrev pub Distinct {ℓ} : {A : Type ℓ} → (A → A → Bool) → List A → Type 0
Distinct clash [] = Unit
Distinct clash (x ∷ xs) = (any (clash x) xs ≡ false) × Distinct clash xs

abbrev pub same_sub : User → User → Bool
same_sub u v = v.sub == u.sub

abbrev pub same_id : Session → Session → Bool
same_id s t = t.id == s.id

-- The foreign key on `users`.
abbrev pub HasUser : List User → String → Type 0
HasUser us sub = is_some (find_user sub us) ≡ true

-- The default group is unset, or a registered group of the user's own.
abbrev pub OwnDefault : List Group → String → Option String → Type 0
OwnDefault gs sub none = Unit
OwnDefault gs sub (some id) = owns_group sub id gs ≡ true

pub record IsConsistent (db : Db) : Type 0 where
  pub users_distinct : Distinct same_sub db.users
  pub groups_distinct : Distinct clashes db.groups
  pub sessions_distinct : Distinct same_id db.sessions
  pub groups_owned : All (λ (g : Group). HasUser db.users g.user_sub) db.groups
  pub sessions_owned : All (λ (s : Session). HasUser db.users s.user_sub) db.sessions
  pub defaults_own : All (λ (u : User). OwnDefault db.groups u.sub u.default_group_id) db.users

-- In a list without clashes, a listed item that passes a test is found by it, where any two items
-- that pass the test clash.
pub find_first-Distinct {ℓ} :
    {A : Type ℓ} (clash : A → A → Bool) (p : A → Bool)
    → ((x y : A) → p x ≡ true → p y ≡ true → clash x y ≡ true)
    → {x : A} (xs : List A) → Distinct clash xs
    → Memᴰ x xs
    → p x ≡ true
    → find_first p xs ≡ some x
unfolding find_first
find_first-Distinct clash p same [] d m h = elim m [ ]
find_first-Distinct clash p same (y ∷ ys) d (Memᴰ.head e) h =
    rw (subst (λ z. p z ≡ true) e h) (ap some (sym e))
find_first-Distinct clash p same {x} (y ∷ ys) d (Memᴰ.tail m) h = elim (Bool-cases (p y)) [
  | inl first ↦ absurd (false≢true (sym d.0 ∙ any-of-mem (clash y) m (same y x first h)))
  | inr later ↦ rw later (find_first-Distinct clash p same ys d.1 m h)
]
