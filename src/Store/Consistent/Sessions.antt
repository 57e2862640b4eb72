-- ===== src/Store/Consistent/Sessions.antt =====
-- The writes to `sessions` keep the tables well-formed.
use spliit_mcp.Prelude.{Bool, ◌==◌, any, All-keep, is_some, Bool-cases, inl, inr}
use spliit_mcp.Store.Rows.{Session, Db}
use spliit_mcp.Store.Users.{find_user}
use spliit_mcp.Store.Sessions.{insert_session_row, delete_session_rows}
use spliit_mcp.Store.Consistent.{same_id, IsConsistent}
use spliit_mcp.Store.Consistent.Users.{WritesConsistent}
use spliit_mcp.Store.Consistent.Writes.{Distinct-keep}

pub insert_session_row-WritesConsistent :
    (s : Session) (db : Db) → IsConsistent db → WritesConsistent (insert_session_row s db)
unfolding insert_session_row
insert_session_row-WritesConsistent s db h =
    elim (Bool-cases (any (λ (t : Session). t.id == s.id) db.sessions)) [
      | inl taken ↦ rw taken tt
      | inr fresh ↦ rw fresh (elim (Bool-cases (is_some (find_user s.user_sub db.users))) [
        | inl known ↦ rw known (record {
          users_distinct = h.users_distinct;
          groups_distinct = h.groups_distinct;
          sessions_distinct = (fresh, h.sessions_distinct);
          groups_owned = h.groups_owned;
          sessions_owned = (known, h.sessions_owned);
          defaults_own = h.defaults_own;
        })
        | inr unknown ↦ rw unknown tt
      ])
    ]

pub delete_session_rows-WritesConsistent :
    (gone : Session → Bool) (db : Db)
    → IsConsistent db
    → WritesConsistent (delete_session_rows gone db)
unfolding delete_session_rows
delete_session_rows-WritesConsistent gone db h = record {
  users_distinct = h.users_distinct;
  groups_distinct = h.groups_distinct;
  sessions_distinct = Distinct-keep same_id _ db.sessions h.sessions_distinct;
  groups_owned = h.groups_owned;
  sessions_owned = All-keep _ _ db.sessions h.sessions_owned;
  defaults_own = h.defaults_own;
}
