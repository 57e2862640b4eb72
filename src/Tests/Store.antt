-- ===== src/Tests/Store.antt =====
-- Runs of the store of internal/store/store.go on two users, their groups and a session.
use mathlib.Core.List.{Memᴰ}
use mathlib.Core.Bool.{false≢true, true≢false}
use spliit_mcp.Prelude.{
  ap, String, ◌≡◌, ◌≢◌, refl, true, [], ◌∷◌, Option, none, some, ◌==◌, ◌⊎◌, ◌↔◌, any, is_some,
  if◌then◌else◌, ltb, find_first, keep, arith,
}
use spliit_mcp.Text.{contains}
use spliit_mcp.Store.Rows.{User, Group, Session, Db, no_rows, ok, err, not_found}
use spliit_mcp.Store.Sql.{
  Engine, Constraint, unique, foreign, is_marked, query, exec, require_affected,
}
use spliit_mcp.Store.Users.{
  find_user, get_user, upsert_user, set_default_group, default_group, owns_group,
}
use spliit_mcp.Store.Groups.{
  clashes, is_row, resolve_group, list_groups, create_group, delete_group, delete_group_row,
  groups_matching,
}
use spliit_mcp.Store.Sessions.{
  insert_session_row, create_session, get_session, delete_session, delete_expired_sessions,
}
use spliit_mcp.Store.Consistent.{IsConsistent}
use spliit_mcp.Store.Steps.{Step, Reach, start, step, Reach-IsConsistent}
use spliit_mcp.Store.Steps
use spliit_mcp.Store.Scope.{
  NamedRow, resolve_group-own, resolve_group-not_found_iff, resolve_group-alias,
}
use spliit_mcp.Store.Isolation.{GroupWrite, GroupWrite-isolated}
use spliit_mcp.Store.Isolation
use spliit_mcp.Store.Defaults.{default_group-set_default_group}
use spliit_mcp.Store.Clearing.{default_group-delete_group}
use spliit_mcp.Store.Logins.{
  get_session-create_session, get_session-delete_expired_sessions, get_session-delete_session,
  get_user-upsert_user,
}
use spliit_mcp.Store.Failures.{perform, perform-unchanged}
use spliit_mcp.Store.Failures

abbrev pub sqlite_text : Constraint → String
sqlite_text unique = "UNIQUE constraint failed: groups.alias"
sqlite_text foreign = "FOREIGN KEY constraint failed"

pub sqlite_text-marked : (c : Constraint) → is_marked (sqlite_text c) ≡ true
unfolding is_marked contains
sqlite_text-marked unique = refl
sqlite_text-marked foreign = refl

abbrev pub sqlite : Engine
sqlite = record {
  constraint_text = sqlite_text;
  constraint_text_marked = sqlite_text-marked;
  collate = λ a b. true;
  reports_rows = true;
}

abbrev user_row : String → Option String → User
user_row sub default = record {
  sub = sub;
  issuer = "https://idp";
  email = "";
  display_name = sub;
  default_group_id = default;
  created_at = 1;
  updated_at = 1;
}

abbrev group_row : String → String → String → String → Group
group_row id sub spliit_id alias = record {
  id = id;
  user_sub = sub;
  base_url = "https://spliit.app/api/trpc";
  spliit_group_id = spliit_id;
  alias = alias;
  participant_id = "p1";
  participant_name = "Ann";
  group_name = "Trip";
  currency = "EUR";
  created_at = 1;
  updated_at = 1;
}

abbrev trip : Group
trip = group_row "g1" "ann" "s1" "trip"

abbrev flat : Group
flat = group_row "g2" "ann" "s2" "flat"

-- Bob's row of the group that Ann calls "trip".
abbrev trip_of_bob : Group
trip_of_bob = group_row "g3" "bob" "s1" "trip"

abbrev login : Session
login = record { id = "c1"; user_sub = "ann"; expires_at = 50; created_at = 1 }

abbrev pub tables : Db
tables = record {
  users = user_row "ann" (some "g1") ∷ user_row "bob" none ∷ [];
  groups = trip ∷ flat ∷ trip_of_bob ∷ [];
  sessions = login ∷ [];
}

tables-IsConsistent : IsConsistent tables
unfolding any clashes find_user find_first owns_group
tables-IsConsistent = record {
  users_distinct = (refl, (refl, tt));
  groups_distinct = (refl, (refl, (refl, tt)));
  sessions_distinct = (refl, tt);
  groups_owned = (refl, (refl, (refl, tt)));
  sessions_owned = (refl, tt);
  defaults_own = (refl, (tt, tt));
}

bob_is_not_ann : ◌≢◌ {A = String} "bob" "ann"
bob_is_not_ann e = false≢true (ap (λ s. s == "ann") e)

resolves_trip : resolve_group none tables "ann" "trip" ≡ ok trip
unfolding resolve_group query find_first
resolves_trip = refl

resolve_group-own_example :
    Memᴰ trip tables.groups
    × (trip.user_sub ≡ "ann")
    × ((trip.alias ≡ "trip") ⊎ ((trip.id ≡ "trip") ⊎ (trip.spliit_group_id ≡ "trip")))
resolve_group-own_example = resolve_group-own none tables "ann" "trip" trip resolves_trip

resolve_group-not_found_iff_example :
    (resolve_group none tables "bob" "flat" ≡ err not_found)
    ↔ (¬ ((g : Group) × NamedRow "bob" "flat" tables g))
resolve_group-not_found_iff_example = resolve_group-not_found_iff tables "bob" "flat"

resolve_group-alias_example : resolve_group none tables "ann" "flat" ≡ ok flat
resolve_group-alias_example =
    resolve_group-alias tables flat tables-IsConsistent (Memᴰ.tail (Memᴰ.head refl))

GroupWrite-isolated_example :
    (list_groups sqlite none (delete_group sqlite none "ann" "g1" tables).1 "bob"
      ≡ list_groups sqlite none tables "bob")
    × (resolve_group none (delete_group sqlite none "ann" "g1" tables).1 "bob" "trip"
        ≡ resolve_group none tables "bob" "trip")
GroupWrite-isolated_example =
    GroupWrite-isolated sqlite "bob" "ann" bob_is_not_ann (Isolation.delete none "g1") none "trip"

abbrev first_user : Db
first_user = (upsert_user sqlite none none 1 "ann" "https://idp" "" "Ann" no_rows).1

Reach-IsConsistent_example : IsConsistent (create_group sqlite none 2 "g1" trip first_user).1
Reach-IsConsistent_example = Reach-IsConsistent sqlite (
    step (step start (Steps.upsert_user none none 1 "ann" "https://idp" "" "Ann"))
      (Steps.create_group none 2 "g1" trip))

bob_cannot_delete : (perform sqlite none 9 (Failures.delete "bob" "g1") tables).0 ≡ some not_found
unfolding perform delete_group exec delete_group_row groups_matching keep is_row require_affected
bob_cannot_delete = refl

perform-unchanged_example : (perform sqlite none 9 (Failures.delete "bob" "g1") tables).1 ≡ tables
perform-unchanged_example =
    perform-unchanged sqlite none 9 (Failures.delete "bob" "g1") tables not_found bob_cannot_delete

flat_has_id : flat.id ≢ ""
flat_has_id e = true≢false (ap (λ s. s == "g2") e)

ann_is_known : is_some (find_user "ann" tables.users) ≡ true
unfolding find_user find_first
ann_is_known = refl

default_group-set_default_group_example :
    ((set_default_group sqlite none 9 "ann" "g2" tables).0 ≡ ok tt)
    × (default_group none (set_default_group sqlite none 9 "ann" "g2" tables).1 "ann" ≡ ok flat)
default_group-set_default_group_example =
    default_group-set_default_group sqlite 9 tables flat tables-IsConsistent
      (Memᴰ.tail (Memᴰ.head refl)) flat_has_id ann_is_known

finds_ann : find_user "ann" tables.users ≡ some (user_row "ann" (some "g1"))
unfolding find_user find_first
finds_ann = refl

default_group-delete_group_example :
    (find_user "ann" (delete_group sqlite none "ann" "g1" tables).1.users
      ≡ some (user_row "ann" none))
    × (default_group none (delete_group sqlite none "ann" "g1" tables).1 "ann" ≡ err not_found)
default_group-delete_group_example =
    default_group-delete_group sqlite tables "ann" "g1" (user_row "ann" (some "g1"))
      tables-IsConsistent finds_ann refl

abbrev new_login : Session
new_login = record { id = "c2"; user_sub = "bob"; expires_at = 110; created_at = 10 }

bob_logs_in : (create_session sqlite none 10 "c2" "bob" 100 tables).0 ≡ ok new_login
unfolding create_session exec insert_session_row any find_user find_first
bob_logs_in = refl

get_session-create_session_example :
    get_session none 60 (create_session sqlite none 10 "c2" "bob" 100 tables).1 "c2"
    ≡ (if ltb 60 110 then ok new_login else err not_found)
get_session-create_session_example =
    get_session-create_session sqlite 10 60 "c2" "bob" 100 tables new_login bob_logs_in

get_session-delete_expired_sessions_example :
    get_session none 45 (delete_expired_sessions sqlite none 40 tables).1 "c1"
    ≡ get_session none 45 tables "c1"
get_session-delete_expired_sessions_example =
    get_session-delete_expired_sessions sqlite none none 40 45 "c1" tables (omega arith)

get_session-delete_session_example :
    get_session none 20 (delete_session sqlite none "c1" tables).1 "c1" ≡ err not_found
get_session-delete_session_example = get_session-delete_session sqlite 20 "c1" tables

reads_bob : get_user none tables "bob" ≡ ok (user_row "bob" none)
unfolding get_user query find_user find_first
reads_bob = refl

get_user-upsert_user_example :
    let u' = record (user_row "bob" none) {
      issuer = "https://new";
      email = "b@x";
      updated_at = 7;
    } in
    ((upsert_user sqlite none none 7 "bob" "https://new" "b@x" "Robert" tables).0 ≡ ok u')
    × (get_user none
          (upsert_user sqlite none none 7 "bob" "https://new" "b@x" "Robert" tables).1
          "bob"
        ≡ ok u')
get_user-upsert_user_example =
    get_user-upsert_user sqlite 7 "bob" "https://new" "b@x" "Robert" tables (user_row "bob" none)
      reads_bob
