-- ===== src/Store/Clearing.antt =====
-- Leaving a group clears it as the default.
use spliit_mcp.Prelude.{
  String, ◌≡◌, refl, ap, ◌∙◌, subst, Bool, true, false, List, [], ◌∷◌, none, some, arith, eq_iff,
  ◌==◌, ◌&&◌, not, any, All, All-of-any, keep, map, Bool-cases, inl, inr, and_false, find_first,
  All-find_first, find_first-passes,
}
use spliit_mcp.Store.Rows.{User, Group, Db, err, not_found}
use spliit_mcp.Store.Sql.{Engine}
use spliit_mcp.Store.Users.{find_user, owns_group, is_default_of, default_test, default_group}
use spliit_mcp.Store.Groups.{is_row, clear_default, delete_group_row, delete_group}
use spliit_mcp.Store.Consistent.{Distinct, same_sub, OwnDefault, IsConsistent}

module _ (sub : String) where
  -- Every row of the user has the default that `find_user` shows.
  one_default :
      (us : List User) (u : User)
      → Distinct same_sub us
      → find_user sub us ≡ some u
      → All (λ (v : User). (v.sub == sub) ≡ true → v.default_group_id ≡ u.default_group_id) us
  unfolding find_user find_first
  one_default [] u d h = cc
  one_default (w ∷ us) u d h = elim (Bool-cases (w.sub == sub)) [
    | inl same ↦
        let e : w ≡ u = ground arith in
        (λ _. ap (λ (x : User). x.default_group_id) e, no_other us same (All-of-any _ us d.0))
    | inr other ↦ (λ p. cc, one_default us u d.1 (ground arith))
  ]
    where
      no_other :
          (vs : List User)
          → (w.sub == sub) ≡ true
          → All (λ (v : User). (v.sub == w.sub) ≡ false) vs
          → All (λ (v : User). (v.sub == sub) ≡ true → v.default_group_id ≡ u.default_group_id) vs
      no_other [] s a = tt
      no_other (v ∷ vs) s a = (
        λ p. ground (arith, eq_iff v.sub sub, eq_iff w.sub sub, eq_iff v.sub w.sub),
        no_other vs s a.1,
      )

module _ (gone : String → Bool) (sub id : String) (left : gone id ≡ true) where
  default_test-gone :
      (g : Group) (us : List User)
      → All (λ (v : User). (v.sub == sub) ≡ true → v.default_group_id ≡ some id) us
      → default_test sub (map (clear_default gone) us) g ≡ false
  unfolding any
  default_test-gone g [] a = refl
  default_test-gone g (v ∷ us) a = elim (Bool-cases (v.sub == sub)) [
    | inl same ↦ rw (a.0 same, left) (default_test-gone g us a.1)
    | inr other ↦
        rw (other, and_false (is_default_of g (clear_default gone v))) (default_test-gone g us a.1)
  ]

find_first-gone :
    (p : Group → Bool) (gs : List Group) → ((g : Group) → p g ≡ false) → find_first p gs ≡ none
unfolding find_first
find_first-gone p [] h = refl
find_first-gone p (g ∷ gs) h = rw (h g) (find_first-gone p gs h)

find_user-cleared :
    (gone : String → Bool) (sub : String) (us : List User) (u : User)
    → find_user sub us ≡ some u
    → find_user sub (map (clear_default gone) us) ≡ some (clear_default gone u)
unfolding find_user find_first
find_user-cleared gone sub [] u h = cc
find_user-cleared gone sub (v ∷ us) u h = elim (Bool-cases (v.sub == sub)) [
  | inl same ↦ let e : v ≡ u = ground arith in rw same (ap (λ x. some (clear_default gone x)) e)
  | inr other ↦ rw other (find_user-cleared gone sub us u (ground arith))
]

clear_default-gone :
    (gone : String → Bool) (u : User) (id : String)
    → u.default_group_id ≡ some id
    → gone id ≡ true
    → clear_default gone u ≡ record u { default_group_id = none }
clear_default-gone gone u id default left = rw (default, left) refl

-- The user's default is found among the rows that the statement deletes.
default_is_gone :
    (sub id : String) (gs : List Group)
    → owns_group sub id gs ≡ true
    → any (λ (g : Group). is_row sub id g && g.id == id) gs ≡ true
unfolding owns_group any is_row
default_is_gone sub id [] h = h
default_is_gone sub id (g ∷ gs) h = ground (arith, default_is_gone sub id gs)

owned_default :
    (db : Db) (sub id : String) (u : User)
    → IsConsistent db
    → find_user sub db.users ≡ some u
    → u.default_group_id ≡ some id
    → owns_group sub id db.groups ≡ true
unfolding find_user
owned_default db sub id u h known default =
    let own =
      All-find_first (λ (v : User). v.sub == sub)
        (λ (v : User). OwnDefault db.groups v.sub v.default_group_id) db.users u h.defaults_own
        known in
    let same =
      (eq_iff u.sub sub).0 (find_first-passes (λ (v : User). v.sub == sub) db.users u known) in
    subst (λ s. owns_group s id db.groups ≡ true) same
      (subst (λ o. OwnDefault db.groups u.sub o) default own)

-- In well-formed tables, deleting a user's default group, without a fault, clears the default in the
-- user's row and changes nothing else there, so that the user has no default group.
pub default_group-delete_group :
    (e : Engine) (db : Db) (sub id : String) (u : User)
    → IsConsistent db
    → find_user sub db.users ≡ some u
    → u.default_group_id ≡ some id
    → (find_user sub (delete_group e none sub id db).1.users
        ≡ some (record u { default_group_id = none }))
      × (default_group none (delete_group e none sub id db).1 sub ≡ err not_found)
unfolding default_group delete_group delete_group_row
default_group-delete_group e db sub id u h known default =
    let gone : String → Bool = λ i. any (λ (g : Group). is_row sub id g && g.id == i) db.groups in
    let owned = owned_default db sub id u h known default in
    let left = default_is_gone sub id db.groups owned in
    let cleared =
      subst (λ o. All (λ (v : User). (v.sub == sub) ≡ true → v.default_group_id ≡ o) db.users)
        default (one_default sub db.users u h.users_distinct known) in
    (
      find_user-cleared gone sub db.users u known
          ∙ ap some (clear_default-gone gone u id default left),
      rw
          (find_first-gone _ (keep (λ g. not (is_row sub id g)) db.groups)
            (λ g. default_test-gone gone sub id left g db.users cleared))
          refl,
    )
