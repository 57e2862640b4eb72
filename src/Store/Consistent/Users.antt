-- ===== src/Store/Consistent/Users.antt =====
-- The writes to `users` keep the tables well-formed.
use spliit_mcp.Prelude.{
  String, ◌≡◌, refl, List, [], ◌∷◌, Option, none, arith, eq_iff, ◌==◌, any, All, Bool-cases, inl,
  inr, find_first,
}
use spliit_mcp.Store.Rows.{User, Group, Db}
use spliit_mcp.Store.Sql.{Engine, Effect, Writes, exec, exec-keeps}
use spliit_mcp.Store.Users.{find_user, update_users, update_user_row, insert_user_row}
use spliit_mcp.Store.Consistent.{Distinct, same_sub, HasUser, OwnDefault, IsConsistent}

abbrev pub WritesConsistent : Effect Db → Type 0
WritesConsistent = Writes IsConsistent

pub exec-IsConsistent :
    (e : Engine) (fault : Option String) (db : Db) (effect : Effect Db)
    → IsConsistent db
    → WritesConsistent effect
    → IsConsistent (exec e fault db effect).1
exec-IsConsistent e = exec-keeps e IsConsistent

module _ (f : User → User) (sub : String) (keeps : (u : User) → (f u).sub ≡ u.sub) where
  any-update_users :
      (v : User) (us : List User) → any (same_sub v) (update_users f sub us) ≡ any (same_sub v) us
  unfolding any update_users
  any-update_users v [] = refl
  any-update_users v (u ∷ us) = ground (arith, keeps u, any-update_users v us)

  HasUser-update_users :
      (s : String) (us : List User) → HasUser us s → HasUser (update_users f sub us) s
  unfolding find_user find_first update_users
  HasUser-update_users s [] h = h
  HasUser-update_users s (u ∷ us) h = ground (arith, keeps u, HasUser-update_users s us)

  Distinct-update_users :
      (us : List User) → Distinct same_sub us → Distinct same_sub (update_users f sub us)
  unfolding update_users
  Distinct-update_users [] h = h
  Distinct-update_users (u ∷ us) h = (
    ground (arith, keeps u, any-update_users u us, any-update_users (f u) us),
    Distinct-update_users us h.1,
  )

  module _ (gs : List Group)
      (points : (u : User)
        → u.sub ≡ sub
        → OwnDefault gs u.sub u.default_group_id
        → OwnDefault gs u.sub (f u).default_group_id) where
    OwnDefault-update_users :
        (us : List User)
        → All (λ (u : User). OwnDefault gs u.sub u.default_group_id) us
        → All (λ (u : User). OwnDefault gs u.sub u.default_group_id) (update_users f sub us)
    unfolding update_users
    OwnDefault-update_users [] h = h
    OwnDefault-update_users (u ∷ us) h = (
      elim (Bool-cases (u.sub == sub)) [
        | inl same ↦ rw (same, keeps u) (points u ((eq_iff u.sub sub).0 same) h.0)
        | inr other ↦ rw other h.0
      ],
      OwnDefault-update_users us h.1,
    )

-- Rows whose users are there stay so when no user disappears.
pub All-HasUser {ℓ} :
    {A : Type ℓ} (owner : A → String) (us vs : List User) (xs : List A)
    → ((s : String) → HasUser us s → HasUser vs s)
    → All (λ x. HasUser us (owner x)) xs
    → All (λ x. HasUser vs (owner x)) xs
All-HasUser owner us vs [] k h = tt
All-HasUser owner us vs (x ∷ xs) k h = (k (owner x) h.0, All-HasUser owner us vs xs k h.1)

pub update_user_row-WritesConsistent :
    (f : User → User) (sub : String) (db : Db)
    → ((u : User) → (f u).sub ≡ u.sub)
    → ((u : User)
        → u.sub ≡ sub
        → OwnDefault db.groups u.sub u.default_group_id
        → OwnDefault db.groups u.sub (f u).default_group_id)
    → IsConsistent db
    → WritesConsistent (update_user_row f sub db)
unfolding update_user_row
update_user_row-WritesConsistent f sub db keeps points h = record {
  users_distinct = Distinct-update_users f sub keeps db.users h.users_distinct;
  groups_distinct = h.groups_distinct;
  sessions_distinct = h.sessions_distinct;
  groups_owned =
      All-HasUser _ db.users _ db.groups (λ s. HasUser-update_users f sub keeps s db.users)
        h.groups_owned;
  sessions_owned =
      All-HasUser _ db.users _ db.sessions (λ s. HasUser-update_users f sub keeps s db.users)
        h.sessions_owned;
  defaults_own = OwnDefault-update_users f sub keeps db.groups points db.users h.defaults_own;
}

HasUser-cons : (u : User) (us : List User) (s : String) → HasUser us s → HasUser (u ∷ us) s
unfolding find_user find_first
HasUser-cons u us s h = ground arith

pub insert_user_row-WritesConsistent :
    (u : User) (db : Db)
    → u.default_group_id ≡ none
    → IsConsistent db
    → WritesConsistent (insert_user_row u db)
unfolding insert_user_row
insert_user_row-WritesConsistent u db unset h =
    elim (Bool-cases (any (λ (v : User). v.sub == u.sub) db.users)) [
      | inl taken ↦ rw taken tt
      | inr fresh ↦ rw fresh (record {
        users_distinct = (fresh, h.users_distinct);
        groups_distinct = h.groups_distinct;
        sessions_distinct = h.sessions_distinct;
        groups_owned = All-HasUser _ db.users _ db.groups (HasUser-cons u db.users) h.groups_owned;
        sessions_owned =
            All-HasUser _ db.users _ db.sessions (HasUser-cons u db.users) h.sessions_owned;
        defaults_own = (rw unset tt, h.defaults_own);
      })
    ]
