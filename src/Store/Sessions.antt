-- ===== src/Store/Sessions.antt =====
-- `CreateSession`, `GetSession`, `DeleteSession` and `DeleteExpiredSessions` of
-- internal/store/store.go. A session's lifetime is not negative.
use spliit_mcp.Prelude.{
  ℕ, ◌+◌, String, Option, none, some, Bool, not, ◌&&◌, ◌∷◌, ◌==◌, if◌then◌else◌, any, ltb, leb,
  find_first, length, keep, is_some,
}
use spliit_mcp.Store.Rows.{Time, Session, Db, Result, ok, err, driver}
use spliit_mcp.Store.Sql.{
  Engine, Effect, Report, unique, foreign, violates, writes, failed, affected, exec, query, one_row,
}
use spliit_mcp.Store.Users.{written, find_user}

-- `INSERT INTO sessions`
unfoldable pub insert_session_row : Session → Db → Effect Db
unfolding any find_user
insert_session_row s db =
    if any (λ (t : Session). t.id == s.id) db.sessions
    then violates unique
    else if is_some (find_user s.user_sub db.users)
    then writes 1 (record db { sessions = s ∷ db.sessions })
    else violates foreign

abbrev pub live : Time → String → Session → Bool
live now id s = s.id == id && ltb now s.expires_at

-- `GetSession`: a session is live while its expiry is in the future.
unfoldable pub get_session : Option String → Time → Db → String → Result Session
unfolding query find_first
get_session fault now db id =
    query fault "get session" (one_row (find_first (live now id) db.sessions))

-- `DELETE FROM sessions` of the rows that pass a test.
unfoldable pub delete_session_rows : (Session → Bool) → Db → Effect Db
unfolding keep
delete_session_rows gone db =
    writes (length (keep gone db.sessions))
      (record db { sessions = keep (λ s. not (gone s)) db.sessions })

-- The count of removed rows, or 0 where the engine does not count.
abbrev purged : Report → Result ℕ
purged (failed msg) = err (driver "delete expired sessions" msg)
purged (affected none) = ok 0
purged (affected (some n)) = ok n

module _ (e : Engine) where
  -- `CreateSession`, at the instant `now` and with the fresh `id`.
  unfoldable pub create_session :
      Option String → Time → String → String → ℕ → Db → Result Session × Db
  unfolding exec insert_session_row
  create_session fault now id sub ttl db =
      let s : Session = record {
        id = id;
        user_sub = sub;
        expires_at = now + ttl;
        created_at = now;
      } in
      let (report, db') = exec e fault db (insert_session_row s db) in
      (written "insert session" s report, db')

  -- `DeleteSession`; a session that is not there is no error.
  unfoldable pub delete_session : Option String → String → Db → Result (Unit {0}) × Db
  unfolding exec delete_session_rows
  delete_session fault id db =
      let (report, db') = exec e fault db (delete_session_rows (λ s. s.id == id) db) in
      (written "delete session" tt report, db')

  -- `DeleteExpiredSessions`
  unfoldable pub delete_expired_sessions : Option String → Time → Db → Result ℕ × Db
  unfolding exec delete_session_rows
  delete_expired_sessions fault now db =
      let (report, db') = exec e fault db (delete_session_rows (λ s. leb s.expires_at now) db) in
      (purged report, db')
