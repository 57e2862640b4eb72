-- ===== src/Store/Groups.antt =====
-- `CreateGroup`, `ListGroups`, `GetGroup`, `ResolveGroup`, `UpdateGroup` and `DeleteGroup` of
-- internal/store/store.go, with the constraints and the foreign-key actions of
-- internal/db/migrations.
use spliit_mcp.Prelude.{
  ℕ, String, Option, none, some, Bool, not, ◌&&◌, ◌||◌, List, [], ◌∷◌, ◌==◌, if◌then◌else◌, any,
  find_first, length, keep, is_some, map,
}
use spliit_mcp.Store.Rows.{Time, User, Group, Db, Result, ok, err}
use spliit_mcp.Store.Sql.{
  Engine, Effect, Report, unique, foreign, violates, writes, failed, affected, exec, query, one_row,
  require_affected, wrap_write_err,
}
use spliit_mcp.Store.Users.{met_row, find_user}

-- The unique keys of the table `groups`: the ID, the group on its instance, and the alias, the last
-- two per user.
unfoldable pub clashes : Group → Group → Bool
clashes g h =
    g.id == h.id
    || (g.user_sub == h.user_sub
        && ((g.base_url == h.base_url && g.spliit_group_id == h.spliit_group_id)
            || g.alias == h.alias))

-- `WHERE id = ? AND user_sub = ?`
unfoldable pub is_row : String → String → Group → Bool
is_row sub id g = g.id == id && g.user_sub == sub

-- `INSERT INTO groups`
unfoldable pub insert_group_row : Group → Db → Effect Db
unfolding any clashes find_user
insert_group_row g db =
    if any (clashes g) db.groups
    then violates unique
    else if is_some (find_user g.user_sub db.users)
    then writes 1 (record db { groups = g ∷ db.groups })
    else violates foreign

-- `UPDATE groups SET … WHERE id = ? AND user_sub = ?`
unfoldable pub update_groups : (Group → Group) → String → String → List Group → List Group
unfolding is_row
update_groups f sub id [] = []
update_groups f sub id (g ∷ gs) = (if is_row sub id g then f g else g) ∷ update_groups f sub id gs

-- Whether the row of `sub` and `id`, once it is updated, clashes with a row of another ID.
unfoldable pub update_clashes : (Group → Group) → String → String → List Group → Bool
unfolding any clashes is_row
update_clashes f sub id gs =
    any
      (λ (g : Group).
        is_row sub id g && any (λ (h : Group). not (h.id == g.id) && clashes (f g) h) gs)
      gs

unfoldable pub groups_matching : String → String → List Group → ℕ
unfolding keep is_row
groups_matching sub id gs = length (keep (is_row sub id) gs)

unfoldable pub update_group_row : (Group → Group) → String → String → Db → Effect Db
unfolding update_groups update_clashes groups_matching
update_group_row f sub id db =
    if update_clashes f sub id db.groups
    then violates unique
    else writes (groups_matching sub id db.groups)
        (record db { groups = update_groups f sub id db.groups })

-- `ON DELETE SET NULL` of `users.default_group_id`.
abbrev pub surviving : (String → Bool) → Option String → Option String
surviving gone none = none
surviving gone (some id) = if gone id then none else some id

abbrev pub clear_default : (String → Bool) → User → User
clear_default gone u = record u { default_group_id = surviving gone u.default_group_id }

-- `DELETE FROM groups WHERE id = ? AND user_sub = ?`
unfoldable pub delete_group_row : String → String → Db → Effect Db
unfolding keep any groups_matching
delete_group_row sub id db =
    let gone = λ (i : String). any (λ (g : Group). is_row sub id g && g.id == i) db.groups in
    writes (groups_matching sub id db.groups) (record db {
      users = map (clear_default gone) db.users;
      groups = keep (λ g. not (is_row sub id g)) db.groups;
    })

-- `ORDER BY alias`, by the engine's collation.
unfoldable pub insert_by_alias : (String → String → Bool) → Group → List Group → List Group
insert_by_alias le g [] = g ∷ []
insert_by_alias le g (h ∷ hs) =
    if le g.alias h.alias then g ∷ (h ∷ hs) else h ∷ insert_by_alias le g hs

unfoldable pub sort_by_alias : (String → String → Bool) → List Group → List Group
unfolding insert_by_alias
sort_by_alias le [] = []
sort_by_alias le (g ∷ gs) = insert_by_alias le g (sort_by_alias le gs)

-- `GetGroup`
unfoldable pub get_group : Option String → Db → String → String → Result Group
unfolding query find_first is_row
get_group fault db sub id = query fault "get group" (one_row (find_first (is_row sub id) db.groups))

abbrev pub first_of_options : Option Group → Option Group → Option Group
first_of_options (some g) other = some g
first_of_options none other = other

-- The rows that a reference names: by alias, by internal ID or by the instance's ID.
abbrev pub refers : String → String → Group → Bool
refers sub ref g = g.user_sub == sub && (g.alias == ref || g.id == ref || g.spliit_group_id == ref)

abbrev pub named_by : String → String → Group → Bool
named_by sub ref g = refers sub ref g && g.alias == ref

-- `ResolveGroup`: a row whose alias matches comes first; among the others the engine's order stands.
unfoldable pub resolve_group : Option String → Db → String → String → Result Group
unfolding query find_first
resolve_group fault db sub ref = query fault "resolve group" (
    one_row (
      first_of_options (find_first (named_by sub ref) db.groups)
        (find_first (refers sub ref) db.groups)))

abbrev pub created : Group → Report → Result Group
created g (failed msg) = err (wrap_write_err "insert group" msg)
created g (affected n) = ok g

-- The columns that `UpdateGroup` writes.
abbrev pub overwrite : Group → Time → Group → Group
overwrite g now old = record old {
  alias = g.alias;
  participant_id = g.participant_id;
  participant_name = g.participant_name;
  group_name = g.group_name;
  currency = g.currency;
  updated_at = now;
}

module _ (e : Engine) where
  -- `ListGroups`
  unfoldable pub list_groups : Option String → Db → String → Result (List Group)
  unfolding query keep sort_by_alias
  list_groups fault db sub =
      query fault "list groups"
        (ok (sort_by_alias e.collate (keep (λ (g : Group). g.user_sub == sub) db.groups)))

  -- `CreateGroup`, at the instant `now` and with the fresh `id`.
  unfoldable pub create_group : Option String → Time → String → Group → Db → Result Group × Db
  unfolding exec insert_group_row wrap_write_err
  create_group fault now id g db =
      let row = record g { id = id; created_at = now; updated_at = now } in
      let (report, db') = exec e fault db (insert_group_row row db) in (created row report, db')

  -- `UpdateGroup`
  unfoldable pub update_group : Option String → Time → Group → Db → Result (Unit {0}) × Db
  unfolding exec update_group_row wrap_write_err require_affected
  update_group fault now g db =
      let (report, db') = exec e fault db (update_group_row (overwrite g now) g.user_sub g.id db) in
      (met_row wrap_write_err "update group" report, db')

  -- `DeleteGroup`
  unfoldable pub delete_group : Option String → String → String → Db → Result (Unit {0}) × Db
  unfolding exec delete_group_row wrap_write_err require_affected
  delete_group fault sub id db =
      let (report, db') = exec e fault db (delete_group_row sub id db) in
      (met_row wrap_write_err "delete group" report, db')
