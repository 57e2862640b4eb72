-- ===== src/Store/Failures.antt =====
-- A write of the store that returns an error has changed nothing.
use spliit_mcp.Prelude.{
  ℕ, zero, suc, String, ◌≡◌, refl, ap, ap₂, Bool, true, false, List, [], ◌∷◌, Option, none, some,
  arith, ◌==◌, ◌&&◌, not, any, All, keep, map, Bool-cases, inl, inr, if◌then◌else◌,
}
use spliit_mcp.Store.Rows.{Time, User, Group, Db, StoreError, Result, ok, err, driver}
use spliit_mcp.Store.Sql.{Engine, Effect, violates, writes, exec, require_affected, wrap_write_err}
use spliit_mcp.Store.Users.{
  update_users, users_matching, update_user_row, owns_group, set_default_group, set_display_name,
  met_row,
}
use spliit_mcp.Store.Groups.{
  is_row, update_groups, update_clashes, groups_matching, update_group_row, overwrite, surviving,
  clear_default, delete_group_row, create_group, update_group, delete_group, created,
}

-- The effect of a statement that meets no row is no effect.
abbrev NoRowNoChange : Db → Effect Db → Type 0
NoRowNoChange db (violates c) = Unit
NoRowNoChange db (writes n db') = n ≡ 0 → db' ≡ db

require_affected-zero :
    (b : Bool) (n : ℕ) (x : StoreError)
    → require_affected (if b then some n else none) ≡ err x
    → n ≡ 0
unfolding require_affected
require_affected-zero true zero x h = refl
require_affected-zero true (suc n) x h = cc
require_affected-zero false n x h = cc

-- A write that must meet a row fails without a trace.
met_row-unchanged :
    (e : Engine) (wrap : String → String → StoreError) (op : String) (fault : Option String)
    (db : Db) (effect : Effect Db) (x : StoreError)
    → NoRowNoChange db effect
    → met_row wrap op (exec e fault db effect).0 ≡ err x
    → (exec e fault db effect).1 ≡ db
unfolding exec
met_row-unchanged e wrap op (some msg) db effect x k h = refl
met_row-unchanged e wrap op none db (violates c) x k h = refl
met_row-unchanged e wrap op none db (writes n db') x k h =
    k (require_affected-zero e.reports_rows n x h)

update_users-none :
    (f : User → User) (sub : String) (us : List User)
    → users_matching sub us ≡ 0
    → update_users f sub us ≡ us
unfolding users_matching keep update_users
update_users-none f sub [] h = refl
update_users-none f sub (u ∷ us) h = ground (arith, update_users-none f sub us)

update_groups-none :
    (f : Group → Group) (sub id : String) (gs : List Group)
    → groups_matching sub id gs ≡ 0
    → update_groups f sub id gs ≡ gs
unfolding groups_matching keep update_groups
update_groups-none f sub id [] h = refl
update_groups-none f sub id (g ∷ gs) h = ground (arith, update_groups-none f sub id gs)

not_matching :
    (sub id : String) (gs : List Group)
    → groups_matching sub id gs ≡ 0
    → All (λ g. is_row sub id g ≡ false) gs
unfolding groups_matching keep
not_matching sub id [] h = tt
not_matching sub id (g ∷ gs) h = (ground arith, not_matching sub id gs (ground arith))

keep-unmatched :
    (sub id : String) (gs : List Group)
    → All (λ g. is_row sub id g ≡ false) gs
    → keep (λ g. not (is_row sub id g)) gs ≡ gs
unfolding keep
keep-unmatched sub id [] h = refl
keep-unmatched sub id (g ∷ gs) h =
    rw h.0 (ap (λ (l : List Group). g ∷ l) (keep-unmatched sub id gs h.1))

none_gone :
    (sub id i : String) (gs : List Group)
    → All (λ g. is_row sub id g ≡ false) gs
    → any (λ (g : Group). is_row sub id g && g.id == i) gs ≡ false
unfolding any
none_gone sub id i [] h = refl
none_gone sub id i (g ∷ gs) h = rw h.0 (none_gone sub id i gs h.1)

surviving_all :
    (gone : String → Bool) (o : Option String)
    → ((i : String) → gone i ≡ false)
    → surviving gone o ≡ o
surviving_all gone none h = refl
surviving_all gone (some i) h = rw (h i) refl

clear_default-none :
    (gone : String → Bool) (us : List User)
    → ((i : String) → gone i ≡ false)
    → map (clear_default gone) us ≡ us
clear_default-none gone [] h = refl
clear_default-none gone (u ∷ us) h =
    ap₂ ◌∷◌ (ap (λ o. record u { default_group_id = o }) (surviving_all gone u.default_group_id h))
      (clear_default-none gone us h)

update_user_row-no_row :
    (f : User → User) (sub : String) (db : Db) → NoRowNoChange db (update_user_row f sub db)
unfolding update_user_row
update_user_row-no_row f sub db h =
    ap (λ us. record db { users = us }) (update_users-none f sub db.users h)

update_group_row-no_row :
    (f : Group → Group) (sub id : String) (db : Db)
    → NoRowNoChange db (update_group_row f sub id db)
unfolding update_group_row
update_group_row-no_row f sub id db = elim (Bool-cases (update_clashes f sub id db.groups)) [
  | inl taken ↦ rw taken tt
  | inr free ↦
      rw free (λ h. ap (λ gs. record db { groups = gs }) (update_groups-none f sub id db.groups h))
]

delete_group_row-no_row :
    (sub id : String) (db : Db) → NoRowNoChange db (delete_group_row sub id db)
unfolding delete_group_row
delete_group_row-no_row sub id db h =
    let unmatched = not_matching sub id db.groups h in
    ap₂ (λ us gs. record db { users = us; groups = gs })
      (clear_default-none _ db.users (λ i. none_gone sub id i db.groups unmatched))
      (keep-unmatched sub id db.groups unmatched)

created-unchanged :
    (e : Engine) (row : Group) (f : Option String) (db : Db) (effect : Effect Db) (x : StoreError)
    → created row (exec e f db effect).0 ≡ err x
    → (exec e f db effect).1 ≡ db
unfolding exec
created-unchanged e row (some msg) db effect x h = refl
created-unchanged e row none db (violates c) x h = refl
created-unchanged e row none db (writes n db') x h = cc

module _ (e : Engine) (f : Option String) (now : Time) (db : Db) (x : StoreError) where
  create_group-unchanged :
      (id : String) (g : Group)
      → (create_group e f now id g db).0 ≡ err x
      → (create_group e f now id g db).1 ≡ db
  unfolding create_group
  create_group-unchanged id g h = created-unchanged e _ f db _ x h

  when_owned :
      (g : User → User) (sub id : String)
      → NoRowNoChange db
          (if owns_group sub id db.groups then update_user_row g sub db else writes 0 db)
  when_owned g sub id = elim (Bool-cases (owns_group sub id db.groups)) [
    | inl owned ↦ rw owned (update_user_row-no_row g sub db)
    | inr stranger ↦ rw stranger (λ h. refl)
  ]

  set_default_group-unchanged :
      (sub id : String)
      → (set_default_group e f now sub id db).0 ≡ err x
      → (set_default_group e f now sub id db).1 ≡ db
  unfolding set_default_group
  set_default_group-unchanged sub id h = elim (Bool-cases (id == "")) [
    | inl clear ↦
        rw clear
          (met_row-unchanged e driver _ f db _ x (update_user_row-no_row _ sub db) (rw clear at h))
    | inr point ↦
        rw point
          (met_row-unchanged e wrap_write_err _ f db _ x (when_owned _ sub id) (rw point at h))
  ]

  update_group-unchanged :
      (g : Group) → (update_group e f now g db).0 ≡ err x → (update_group e f now g db).1 ≡ db
  unfolding update_group
  update_group-unchanged g =
      met_row-unchanged e wrap_write_err _ f db _ x
        (update_group_row-no_row (overwrite g now) g.user_sub g.id db)

  delete_group-unchanged :
      (sub id : String)
      → (delete_group e f sub id db).0 ≡ err x
      → (delete_group e f sub id db).1 ≡ db
  unfolding delete_group
  delete_group-unchanged sub id =
      met_row-unchanged e wrap_write_err _ f db _ x (delete_group_row-no_row sub id db)

  set_display_name-unchanged :
      (sub name : String)
      → (set_display_name e f now sub name db).0 ≡ err x
      → (set_display_name e f now sub name db).1 ≡ db
  unfolding set_display_name
  set_display_name-unchanged sub name =
      met_row-unchanged e driver _ f db _ x (update_user_row-no_row _ sub db)

-- The single-statement writes of groups and of the user's settings.
pub data Write : Type 0 where
  create : String → Group → Write
  update : Group → Write
  delete set_default set_name : String → String → Write

abbrev pub failure {ℓ} : {A : Type ℓ} → Result A → Option StoreError
failure (ok a) = none
failure (err x) = some x

abbrev pub traced : {A : Type 0} → Result A × Db → Option StoreError × Db
traced (r, db) = (failure r, db)

-- The error that a write returns, if any, and the tables that it leaves.
unfoldable pub perform : Engine → Option String → Time → Write → Db → Option StoreError × Db
perform e f now (create id g) db = traced (create_group e f now id g db)
perform e f now (update g) db = traced (update_group e f now g db)
perform e f now (delete sub id) db = traced (delete_group e f sub id db)
perform e f now (set_default sub id) db = traced (set_default_group e f now sub id db)
perform e f now (set_name sub name) db = traced (set_display_name e f now sub name db)

failure-eq-some {ℓ} : {A : Type ℓ} (r : Result A) (x : StoreError) → failure r ≡ some x → r ≡ err x
failure-eq-some (ok a) x h = cc
failure-eq-some (err y) x h = ground arith

-- When a write of groups, of the default group or of the display name returns an error, of whatever
-- kind, the tables are exactly as before.
pub perform-unchanged :
    (e : Engine) (f : Option String) (now : Time) (w : Write) (db : Db) (x : StoreError)
    → (perform e f now w db).0 ≡ some x
    → (perform e f now w db).1 ≡ db
unfolding perform
perform-unchanged e f now (create id g) db x h =
    create_group-unchanged e f now db x id g (failure-eq-some _ x h)
perform-unchanged e f now (update g) db x h =
    update_group-unchanged e f now db x g (failure-eq-some _ x h)
perform-unchanged e f now (delete sub id) db x h =
    delete_group-unchanged e f now db x sub id (failure-eq-some _ x h)
perform-unchanged e f now (set_default sub id) db x h =
    set_default_group-unchanged e f now db x sub id (failure-eq-some _ x h)
perform-unchanged e f now (set_name sub name) db x h =
    set_display_name-unchanged e f now db x sub name (failure-eq-some _ x h)
