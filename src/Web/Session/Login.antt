-- ===== src/Web/Session/Login.antt =====
-- From a login to a request, and from a logout to the next request.
use spliit_mcp.Prelude.{
  ℕ, suc, ◌+◌, ◌<◌, String, ◌≡◌, refl, sym, ap, subst, ◌∙◌, Bool, true, List, ◌∷◌, Option, none,
  some, arith, eq_refl, ◌==◌, find_first, any, is_some, ltb, Bool-cases, inl, inr, Option-cases,
}
use spliit_mcp.Store.Rows.{Time, User, Session, Db, Result, ok, err, not_found, conflict, driver}
use spliit_mcp.Store.Sql.{Engine, Report, failed, affected, query, exec}
use spliit_mcp.Store.Users.{get_user, find_user, written, upsert_found}
use spliit_mcp.Store.Sessions.{get_session, create_session, insert_session_row}
use spliit_mcp.Store.Logins.{get_session-delete_session}
use spliit_mcp.Tools.World.{Env, World, read, write}
use spliit_mcp.Tools.Outcome.{done}
use spliit_mcp.Oidc.{Claims, NameClaims, claims_from_id_token, merge_userinfo}
use spliit_mcp.Web.Reply.{
  error, Step, go, halt, stored, looked_up, and_then, of_stored, pure, server_error,
}
use spliit_mcp.Web.Reply.Steps.{of_stored-eq-go}
use spliit_mcp.Web.Session.{
  Cookie, require_session, on_success, upsert, login_claims, logout, cookie_of, start_session,
}
use spliit_mcp.Web.Session.Guard.{found_user}

written-eq-ok : {A : Type 0} (op : String) (a b : A) (r : Report) → written op a r ≡ ok b → a ≡ b
written-eq-ok op a b (failed msg) h = cc
written-eq-ok op a b (affected n) h = cc

-- What an inserted session is, and what the insertion keeps.
record Inserted (now : Time) (id sub : String) (ttl : ℕ) (db db' : Db) (s : Session) : Type 0 where
  first : (rest : List Session) × (db'.sessions ≡ s ∷ rest)
  users : db'.users ≡ db.users
  known : is_some (find_user sub db.users) ≡ true
  of_user : s.user_sub ≡ sub

create_session-Inserted :
    (e : Engine) (fault : Option String) (now : Time) (id sub : String) (ttl : ℕ) (db : Db)
    (s : Session)
    → (create_session e fault now id sub ttl db).0 ≡ ok s
    → Inserted now id sub ttl db (create_session e fault now id sub ttl db).1 s
unfolding create_session insert_session_row exec
create_session-Inserted e (some msg) now id sub ttl db s h = cc
create_session-Inserted e none now id sub ttl db s h =
    elim (Bool-cases (any (λ (x : Session). x.id == id) db.sessions)) [
      | inl taken ↦ cc (rw taken at h)
      | inr fresh ↦ elim (Bool-cases (is_some (find_user sub db.users))) [
        | inl known ↦
            let t : Session = record {
              id = id;
              user_sub = sub;
              expires_at = now + ttl;
              created_at = now;
            } in
            let made : t ≡ s = cc (rw (fresh, known) at h) in
            rw (fresh, known)
              (record {
                first = (db.sessions, rw made refl);
                users = refl;
                known = known;
                of_user = sym (ap (λ (x : Session). x.user_sub) made);
              })
        | inr unknown ↦ cc (rw (fresh, unknown) at h)
      ]
    ]

upsert_found-sub :
    (e : Engine) (f f' : Option String) (now : Time) (sub issuer email name : String) (db db' : Db)
    (found : Result User) (u : User)
    → get_user f' db' sub ≡ found
    → (upsert_found e f now sub issuer email name found db).0 ≡ ok u
    → u.sub ≡ sub
unfolding upsert_found
upsert_found-sub e f f' now sub issuer email name db db' (ok v) u k h =
    let made =
      written-eq-ok "update user" (record v { issuer = issuer; email = email; updated_at = now }) u
        _ h in
    sym (ap (λ (x : User). x.sub) made) ∙ (found_user f' db' sub v k).1
upsert_found-sub e f f' now sub issuer email name db db' (err not_found) u k h =
    let made =
      written-eq-ok "insert user"
        (record {
          sub = sub;
          issuer = issuer;
          email = email;
          display_name = name;
          default_group_id = none;
          created_at = now;
          updated_at = now;
        })
        u _ h in
    sym (ap (λ (x : User). x.sub) made)
upsert_found-sub e f f' now sub issuer email name db db' (err (conflict op)) u k h = cc
upsert_found-sub e f f' now sub issuer email name db db' (err (driver op msg)) u k h = cc

login_claims-subject :
    {D : Type 0} (env : Env D) (subject : String) (token : NameClaims) (info : Option NameClaims)
    → (login_claims env subject token info).subject ≡ subject
unfolding login_claims claims_from_id_token merge_userinfo
login_claims-subject env subject token none = ground arith
login_claims-subject env subject token (some i) = ground arith

module _ {D : Type 0} (env : Env D) where
  upsert-sub :
      (issuer : String) (claims : Claims) (w : World) (u : User)
      → (upsert env issuer claims w).0 ≡ go u
      → u.sub ≡ claims.subject
  unfolding upsert read write stored looked_up
  upsert-sub issuer claims w u h =
      upsert_found-sub env.engine (env.fault (suc (suc w.ticks))) (env.fault (suc w.ticks))
        (env.clock w.ticks) claims.subject issuer claims.email claims.display_name w.db w.db _ u
        refl (of_stored-eq-go _ _ h)

  first_session :
      (now : Time) (db : Db) (s : Session) (rest : List Session)
      → db.sessions ≡ s ∷ rest
      → now < s.expires_at
      → get_session none now db s.id ≡ ok s
  unfolding get_session query find_first
  first_session now db s rest e unexpired =
      let t : ltb now s.expires_at ≡ true = ground (arith, unexpired) in rw e (rw (eq_refl, t) refl)

  known_user :
      (db : Db) (sub : String) (u : User)
      → find_user sub db.users ≡ some u
      → get_user none db sub ≡ ok u
  unfolding get_user query
  known_user db sub u h = rw h refl

  -- A session that was just inserted for a stored user is accepted.
  require_session-Inserted :
      (now : Time) (id sub : String) (ttl : ℕ) (db : Db) (w : World) (s : Session)
      → Inserted now id sub ttl db w.db s
      → env.clock w.ticks < s.expires_at
      → env.fault (suc w.ticks) ≡ none
      → env.fault (suc (suc w.ticks)) ≡ none
      → (u : User) × ((require_session env (some s.id) w).0 ≡ go u) × (u.sub ≡ sub)
  unfolding require_session read stored
  require_session-Inserted now id sub ttl db w s i unexpired f f' =
      elim (Option-cases (find_user sub db.users)) [
        | inl unknown ↦ absurd (cc (rw unknown at i.known))
        | inr (u, known) ↦
            let found : find_user s.user_sub w.db.users ≡ some u = rw (i.users, i.of_user) known in
            let s_found = first_session (env.clock w.ticks) w.db s i.first.0 i.first.1 unexpired in
            let u_found = known_user w.db s.user_sub u found in
            (
              u,
              rw (f, s_found) (rw (f', u_found) refl),
              (found_user none w.db s.user_sub u u_found).1 ∙ i.of_user,
            )
      ]

  -- What `RequireSession` does with a cookie, in the world that a login leaves.
  abbrev Accepted : String → Cookie → World → Type 0
  Accepted subject c w =
      env.clock w.ticks < c.expires_at
      → env.fault (suc w.ticks) ≡ none
      → env.fault (suc (suc w.ticks)) ≡ none
      → (u : User) × ((require_session env (some c.value) w).0 ≡ go u) × (u.sub ≡ subject)

  abbrev after_insert : Bool → World → Result Session × Db → Step Cookie × World
  after_insert secure w r =
      and_then (of_stored server_error (done r.0), record w { db = r.1; ticks = suc w.ticks })
        (λ s. pure (cookie_of secure s))

  after_insert-Accepted :
      (now : Time) (id sub : String) (ttl : ℕ) (secure : Bool) (w : World) (r : Result Session × Db)
      (c : Cookie)
      → ((s : Session) → r.0 ≡ ok s → Inserted now id sub ttl w.db r.1 s)
      → (after_insert secure w r).0 ≡ go c
      → Accepted sub c (after_insert secure w r).1
  after_insert-Accepted now id sub ttl secure w (ok s, db') c i h =
      let made : cookie_of secure s ≡ c = cc h in
      subst (λ x. Accepted sub x (record w { db = db'; ticks = suc w.ticks })) made
        (require_session-Inserted now id sub ttl w.db (record w { db = db'; ticks = suc w.ticks }) s
          (i s refl))
  after_insert-Accepted now id sub ttl secure w (err x, db') c i h = cc

  start_session-Accepted :
      (ttl : ℕ) (secure : Bool) (u : User) (w : World) (c : Cookie)
      → (start_session env ttl secure u w).0 ≡ go c
      → Accepted u.sub c (start_session env ttl secure u w).1
  unfolding start_session write stored
  start_session-Accepted ttl secure u w c h =
      after_insert-Accepted (env.clock w.ticks) (env.uuid w.ticks) u.sub ttl secure w
        (create_session env.engine (env.fault w.ticks) (env.clock w.ticks) (env.uuid w.ticks) u.sub
          ttl w.db)
        c
        (create_session-Inserted env.engine (env.fault w.ticks) (env.clock w.ticks)
          (env.uuid w.ticks) u.sub ttl w.db)
        h

  after_upsert-Accepted :
      (ttl : ℕ) (secure : Bool) (subject : String) (r : Step User × World) (c : Cookie)
      → ((u : User) → r.0 ≡ go u → u.sub ≡ subject)
      → (and_then r (start_session env ttl secure)).0 ≡ go c
      → Accepted subject c (and_then r (start_session env ttl secure)).1
  after_upsert-Accepted ttl secure subject (go u, w) c i h =
      rw (sym (i u refl)) (start_session-Accepted ttl secure u w c h)
  after_upsert-Accepted ttl secure subject (halt x, w) c i h = cc

  login-Accepted :
      (issuer : String) (ttl : ℕ) (secure : Bool) (subject : String) (token : NameClaims)
      (info : Option NameClaims) (w : World) (c : Cookie)
      → (on_success env issuer ttl secure subject token info w).0 ≡ go c
      → Accepted subject c (on_success env issuer ttl secure subject token info w).1
  unfolding on_success
  login-Accepted issuer ttl secure subject token info w c h =
      let claims = login_claims env subject token info in
      after_upsert-Accepted ttl secure subject (upsert env issuer claims w) c
        (λ u k. upsert-sub issuer claims w u k ∙ login_claims-subject env subject token info) h

  -- After a login that succeeded, a request with its cookie that comes before the cookie expires and
  -- meets no fault of the database passes the guard, as the user whom the token names.
  pub login-lets_in :
      (issuer : String) (ttl : ℕ) (secure : Bool) (subject : String) (token : NameClaims)
      (info : Option NameClaims) (w w' : World) (c : Cookie)
      → on_success env issuer ttl secure subject token info w ≡ (go c, w')
      → env.clock w'.ticks < c.expires_at
      → env.fault (suc w'.ticks) ≡ none
      → env.fault (suc (suc w'.ticks)) ≡ none
      → (u : User) × ((require_session env (some c.value) w').0 ≡ go u) × (u.sub ≡ subject)
  login-lets_in issuer ttl secure subject token info w w' c e =
      subst (Accepted subject c) (ap (λ r. r.1) e)
        (login-Accepted issuer ttl secure subject token info w c (ap (λ r. r.0) e))

  -- After a logout that meets no fault of the database, a later request with the same cookie that
  -- meets no fault is answered with 401.
  pub logout-rejected :
      (secure : Bool) (id : String) (w : World)
      → env.fault w.ticks ≡ none
      → env.fault (suc (suc w.ticks)) ≡ none
      → (require_session env (some id) (logout env secure (some id) w).1).0
        ≡ halt (record { status = 401; body = error "session expired" })
  unfolding logout require_session read write stored
  logout-rejected secure id w f f' =
      rw (f, f') (rw (get_session-delete_session env.engine _ id w.db) refl)
