-- ===== src/Web/Session/Guard.antt =====
-- Whom `RequireSession` lets through.
use mathlib.Core.List.{Memᴰ}
use spliit_mcp.Prelude.{
  ◌<◌, String, ◌≡◌, sym, ap, Option, none, some, arith, eq_iff, ◌==◌, find_first-mem,
  find_first-passes,
}
use spliit_mcp.Store.Rows.{Time, User, Session, Db, ok}
use spliit_mcp.Store.Users.{get_user, find_user}
use spliit_mcp.Store.Sessions.{get_session, live}
use spliit_mcp.Tools.World.{Env, World, read}
use spliit_mcp.Web.Reply.{go, stored}
use spliit_mcp.Web.Reply.Steps.{and_then-eq-go, of_stored-eq-go, query-eq-ok}
use spliit_mcp.Web.Session.{require_session}

-- A user whose row is stored, and a stored session of that user with the cookie's ID that ends after
-- the instant.
pub record SignedIn (db : Db) (now : Time) (cookie : Option String) (u : User) : Type 0 where
  pub session : Session
  pub stored : Memᴰ session db.sessions
  pub named : cookie ≡ some session.id
  pub unexpired : now < session.expires_at
  pub of_user : u.sub ≡ session.user_sub
  pub user_stored : Memᴰ u db.users

pub found_session :
    (fault : Option String) (now : Time) (db : Db) (id : String) (s : Session)
    → get_session fault now db id ≡ ok s
    → Memᴰ s db.sessions × (s.id ≡ id) × (now < s.expires_at)
unfolding get_session
found_session fault now db id s h =
    let found = (query-eq-ok fault "get session" _ h).0 in
    let passed = find_first-passes (live now id) db.sessions s found in
    (
      find_first-mem (live now id) db.sessions s found,
      ground (arith, passed, eq_iff s.id id),
      ground (arith, passed),
    )

pub found_user :
    (fault : Option String) (db : Db) (sub : String) (u : User)
    → get_user fault db sub ≡ ok u
    → Memᴰ u db.users × (u.sub ≡ sub)
unfolding get_user find_user
found_user fault db sub u h =
    let found = (query-eq-ok fault "get user" _ h).0 in
    let passed = find_first-passes (λ (v : User). v.sub == sub) db.users u found in
    (find_first-mem _ db.users u found, ground (arith, passed, eq_iff u.sub sub))

module _ {D : Type 0} (env : Env D) where
  -- A request goes on behind the guard only as a stored user, for whom the session cookie names a
  -- stored session that has not ended when the guard looks.
  pub require_session-SignedIn :
      (cookie : Option String) (w : World) (u : User)
      → (require_session env cookie w).0 ≡ go u
      → SignedIn w.db (env.clock w.ticks) cookie u
  unfolding require_session read stored
  require_session-SignedIn none w u h = cc
  require_session-SignedIn (some id) w u h =
      let (s, e, k) = and_then-eq-go _ _ h in
      let s_found = found_session _ _ w.db id s (of_stored-eq-go _ _ (ap (λ p. p.0) e)) in
      let u_found = found_user _ w.db s.user_sub u (of_stored-eq-go _ _ k) in
      record {
        session = s;
        stored = s_found.0;
        named = ap some (sym s_found.1);
        unexpired = s_found.2;
        of_user = u_found.1;
        user_stored = u_found.0;
      }
