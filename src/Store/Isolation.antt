-- ===== src/Store/Isolation.antt =====
-- One user's writes to `groups` change nothing that another user can resolve or list.
use spliit_mcp.Prelude.{
  String, ◌≡◌, ◌≢◌, refl, Bool, true, List, [], ◌∷◌, Option, arith, eq_iff, ◌==◌, not, any, keep,
  is_some, Bool-cases, inl, inr, find_first,
}
use spliit_mcp.Store.Rows.{Time, Group, Db}
use spliit_mcp.Store.Sql.{Engine, Writes, exec-keeps}
use spliit_mcp.Store.Users.{find_user}
use spliit_mcp.Store.Groups
use spliit_mcp.Store.Groups.{
  clashes, is_row, insert_group_row, update_groups, update_clashes, update_group_row, overwrite,
  delete_group_row, refers, named_by, resolve_group, list_groups,
}
use spliit_mcp.Store.Scope.{groups_of}

-- The writes to `groups` that the server makes for the user `sub`.
pub data GroupWrite (e : Engine) (sub : String) (db : Db) : Db → Type 0 where
  create :
      (f : Option String) (now : Time) (id : String) (g : Group)
      → g.user_sub ≡ sub
      → GroupWrite e sub db (Groups.create_group e f now id g db).1
  update :
      (f : Option String) (now : Time) (g : Group)
      → g.user_sub ≡ sub
      → GroupWrite e sub db (Groups.update_group e f now g db).1
  delete :
      (f : Option String) (id : String) → GroupWrite e sub db (Groups.delete_group e f sub id db).1

module _ (v sub : String) (other : v ≢ sub) where
  abbrev mine : Group → Bool
  mine g = g.user_sub == v

  keep-update_groups :
      (f : Group → Group) (keeps : (g : Group) → (f g).user_sub ≡ g.user_sub) (id : String)
      (gs : List Group)
      → keep mine (update_groups f sub id gs) ≡ keep mine gs
  unfolding keep update_groups is_row
  keep-update_groups f keeps id [] = refl
  keep-update_groups f keeps id (g ∷ gs) =
      ground (
        arith,
        keeps g,
        eq_iff g.user_sub v,
        eq_iff g.user_sub sub,
        keep-update_groups f keeps id gs,
      )

  keep-delete :
      (id : String) (gs : List Group)
      → keep mine (keep (λ g. not (is_row sub id g)) gs) ≡ keep mine gs
  unfolding keep is_row
  keep-delete id [] = refl
  keep-delete id (g ∷ gs) =
      ground (arith, eq_iff g.user_sub v, eq_iff g.user_sub sub, keep-delete id gs)

  keep-cons : (g : Group) (gs : List Group) → g.user_sub ≡ sub → keep mine (g ∷ gs) ≡ keep mine gs
  unfolding keep
  keep-cons g gs h = ground (arith, eq_iff g.user_sub v)

  abbrev SameGroups : List Group → Db → Type 0
  SameGroups gs db = groups_of v db ≡ gs

  insert-SameGroups :
      (g : Group) (db : Db)
      → g.user_sub ≡ sub
      → Writes (SameGroups (groups_of v db)) (insert_group_row g db)
  unfolding insert_group_row
  insert-SameGroups g db h = elim (Bool-cases (any (clashes g) db.groups)) [
    | inl taken ↦ rw taken tt
    | inr fresh ↦ rw fresh (elim (Bool-cases (is_some (find_user g.user_sub db.users))) [
      | inl known ↦ rw known (keep-cons g db.groups h)
      | inr unknown ↦ rw unknown tt
    ])
  ]

  update-SameGroups :
      (f : Group → Group) (keeps : (g : Group) → (f g).user_sub ≡ g.user_sub) (id : String)
      (db : Db)
      → Writes (SameGroups (groups_of v db)) (update_group_row f sub id db)
  unfolding update_group_row
  update-SameGroups f keeps id db = elim (Bool-cases (update_clashes f sub id db.groups)) [
    | inl taken ↦ rw taken tt
    | inr free ↦ rw free (keep-update_groups f keeps id db.groups)
  ]

  delete-SameGroups :
      (id : String) (db : Db) → Writes (SameGroups (groups_of v db)) (delete_group_row sub id db)
  unfolding delete_group_row
  delete-SameGroups id db = keep-delete id db.groups

  pub groups_of-GroupWrite :
      (e : Engine) {db db' : Db} → GroupWrite e sub db db' → groups_of v db' ≡ groups_of v db
  unfolding Groups.create_group Groups.update_group Groups.delete_group
  groups_of-GroupWrite e {db} (create f now id g h) =
      exec-keeps e (SameGroups (groups_of v db)) f db _ refl (insert-SameGroups _ db h)
  groups_of-GroupWrite e {db} (update f now g h) =
      exec-keeps e (SameGroups (groups_of v db)) f db _ refl
        (rw h (update-SameGroups (overwrite g now) (λ k. refl) g.id db))
  groups_of-GroupWrite e {db} (delete f id) =
      exec-keeps e (SameGroups (groups_of v db)) f db _ refl (delete-SameGroups id db)

-- A test that only one user's rows pass finds the same among those rows.
find_first-keep :
    (p q : Group → Bool)
    → ((g : Group) → p g ≡ true → q g ≡ true)
    → (gs : List Group) → find_first p (keep q gs) ≡ find_first p gs
unfolding find_first keep
find_first-keep p q h [] = refl
find_first-keep p q h (g ∷ gs) = ground (arith, h g, find_first-keep p q h gs)

refers-mine : (v ref : String) (g : Group) → refers v ref g ≡ true → (g.user_sub == v) ≡ true
refers-mine v ref g h = ground arith

named_by-mine : (v ref : String) (g : Group) → named_by v ref g ≡ true → (g.user_sub == v) ≡ true
named_by-mine v ref g h = ground arith

-- Resolving reads only the caller's own rows.
resolve_group-of_mine :
    (f : Option String) (v ref : String) (db db' : Db)
    → groups_of v db' ≡ groups_of v db
    → resolve_group f db' v ref ≡ resolve_group f db v ref
unfolding resolve_group
resolve_group-of_mine f v ref db db' h = cc (
  find_first-keep (refers v ref) (λ g. g.user_sub == v) (refers-mine v ref) db.groups,
  find_first-keep (refers v ref) (λ g. g.user_sub == v) (refers-mine v ref) db'.groups,
  find_first-keep (named_by v ref) (λ g. g.user_sub == v) (named_by-mine v ref) db.groups,
  find_first-keep (named_by v ref) (λ g. g.user_sub == v) (named_by-mine v ref) db'.groups,
)

-- Whatever group a user creates, updates or deletes, and whether or not the statement fails, every
-- other user lists the same groups and resolves every reference as before.
pub GroupWrite-isolated :
    (e : Engine) (v sub : String) {db db' : Db}
    → v ≢ sub
    → GroupWrite e sub db db'
    → (f : Option String) (ref : String)
    → (list_groups e f db' v ≡ list_groups e f db v)
      × (resolve_group f db' v ref ≡ resolve_group f db v ref)
unfolding list_groups
GroupWrite-isolated e v sub {db} {db'} other w f ref =
    let same = groups_of-GroupWrite v sub other e w in
    (rw same refl, resolve_group-of_mine f v ref db db' same)
