-- ===== src/Store/Logins.antt =====
-- Web sessions and the user row that a login refreshes.
use spliit_mcp.Prelude.{
  ℕ, ◌+◌, ◌≤◌, String, ◌≡◌, refl, sym, ap, subst, true, List, [], ◌∷◌, Option, none, some, arith,
  eq_refl, ◌==◌, not, any, keep, is_some, Bool-cases, inl, inr, if◌then◌else◌, ltb, leb, find_first,
  find_first-of-none, any-weaker,
}
use spliit_mcp.Store.Rows.{Time, User, Session, Db, ok, err, not_found}
use spliit_mcp.Store.Sql.{Engine, one_row}
use spliit_mcp.Store.Users.{find_user, get_user, update_users, upsert_user}
use spliit_mcp.Store.Sessions.{
  insert_session_row, create_session, get_session, delete_session, delete_expired_sessions, live,
}

-- A session that was just created is found until it expires, and not from then on.
pub get_session-create_session :
    (e : Engine) (now t : Time) (id sub : String) (ttl : ℕ) (db : Db) (s : Session)
    → (create_session e none now id sub ttl db).0 ≡ ok s
    → get_session none t (create_session e none now id sub ttl db).1 id
      ≡ (if ltb t (now + ttl) then ok s else err not_found)
unfolding create_session get_session find_first insert_session_row
get_session-create_session e now t id sub ttl db s h =
    elim (Bool-cases (any (λ (x : Session). x.id == id) db.sessions)) [
      | inl taken ↦ cc (rw taken at h)
      | inr fresh ↦ elim (Bool-cases (is_some (find_user sub db.users))) [
        | inl known ↦
            let made = rw (fresh, known) at h in
            let past = find_first-of-none (live t id) db.sessions (
              any-weaker (λ (x : Session). x.id == id) (λ (x : Session). ltb t x.expires_at)
                db.sessions fresh) in
            rw (fresh, known, eq_refl id, past) (ground (arith, made))
        | inr unknown ↦ cc (rw (fresh, unknown) at h)
      ]
    ]

-- A live session is never among the expired ones.
find_first-purged :
    (now t : Time) (id : String) (ss : List Session)
    → now ≤ t
    → find_first (live t id) (keep (λ (s : Session). not (leb s.expires_at now)) ss)
      ≡ find_first (live t id) ss
unfolding find_first keep
find_first-purged now t id [] h = refl
find_first-purged now t id (s ∷ ss) h = ground (arith, find_first-purged now t id ss)

find_first-removed :
    (t : Time) (id : String) (ss : List Session)
    → find_first (live t id) (keep (λ (s : Session). not (s.id == id)) ss) ≡ none
unfolding find_first keep
find_first-removed t id [] = refl
find_first-removed t id (s ∷ ss) = elim (Bool-cases (s.id == id)) [
  | inl same ↦ rw same (find_first-removed t id ss)
  | inr other ↦ rw (other, other) (find_first-removed t id ss)
]

-- Purging at one instant changes nothing that is read at that instant or later.
pub get_session-delete_expired_sessions :
    (e : Engine) (f f' : Option String) (now t : Time) (id : String) (db : Db)
    → now ≤ t
    → get_session f' t (delete_expired_sessions e f now db).1 id ≡ get_session f' t db id
unfolding get_session delete_expired_sessions
get_session-delete_expired_sessions e (some msg) f' now t id db h = refl
get_session-delete_expired_sessions e none f' now t id db h =
    rw (find_first-purged now t id db.sessions h) refl

-- After a logout the session is never found.
pub get_session-delete_session :
    (e : Engine) (t : Time) (id : String) (db : Db)
    → get_session none t (delete_session e none id db).1 id ≡ err not_found
unfolding get_session delete_session
get_session-delete_session e t id db = rw (find_first-removed t id db.sessions) refl

find_user-update_users :
    (f : User → User) (sub : String) (us : List User) (u : User)
    → ((v : User) → (f v).sub ≡ v.sub)
    → find_user sub us ≡ some u
    → find_user sub (update_users f sub us) ≡ some (f u)
unfolding find_user find_first update_users
find_user-update_users f sub [] u keeps h = cc
find_user-update_users f sub (v ∷ us) u keeps h = elim (Bool-cases (v.sub == sub)) [
  | inl same ↦
      let e : v ≡ u = ground arith in
      let kept : ((f v).sub == sub) ≡ true = subst (λ x. (x == sub) ≡ true) (sym (keeps v)) same in
      rw same (rw kept (ap (λ x. some (f x)) e))
  | inr other ↦ rw (other, other) (find_user-update_users f sub us u keeps (ground arith))
]

found_user :
    (us : List User) (sub : String) (u : User)
    → one_row (find_user sub us) ≡ ok u
    → find_user sub us ≡ some u
found_user us sub u h = ground arith

-- A login of a known user writes the issuer and the e-mail of the token and keeps the display name
-- and the default group, in the result and in the row that is read afterwards.
pub get_user-upsert_user :
    (e : Engine) (now : Time) (sub issuer email name : String) (db : Db) (u : User)
    → get_user none db sub ≡ ok u
    → let u' = record u { issuer = issuer; email = email; updated_at = now } in
      ((upsert_user e none none now sub issuer email name db).0 ≡ ok u')
      × (get_user none (upsert_user e none none now sub issuer email name db).1 sub ≡ ok u')
unfolding upsert_user get_user
get_user-upsert_user e now sub issuer email name db u h =
    let found = found_user db.users sub u h in
    rw (found, upsert_user)
      (
        refl,
        rw
            (find_user-update_users
              (λ v. record v { issuer = issuer; email = email; updated_at = now }) sub db.users u
              (λ v. refl) found)
            refl,
      )
