-- ===== src/Web/Me/Saved.antt =====
-- What UpdateMe of internal/handlers/api.go has stored when it answers with 200.
use spliit_mcp.Prelude.{
  String, ◌≡◌, ◌≢◌, refl, sym, subst, true, List, [], ◌∷◌, Option, none, some, ◌==◌, Bool-cases,
  inl, inr, find_first, if◌then◌else◌, not, ◌&&◌, is_some,
}
use spliit_mcp.Text.{trim_space}
use spliit_mcp.Store.Rows.{Time, User, Db, StoreError, driver, ok}
use spliit_mcp.Store.Sql.{Engine, exec, writes, wrap_write_err, require_affected}
use spliit_mcp.Store.Users.{
  find_user, update_users, update_user_row, get_user, set_display_name, set_default_group, met_row,
  owns_group,
}
use spliit_mcp.Tools.World.{Env, World, read, write}
use spliit_mcp.Web.Reply.{
  Response, me_body, Step, go, halt, and_then, pure, stored, body_or_bad, server_error,
}
use spliit_mcp.Web.Reply.Steps.{of_stored-eq-go, query-eq-ok}
use spliit_mcp.Web.Me.{
  MeEdit, me_of, wanted_name, save_default, save_name, update_me, group_missing,
}

-- A row with the display name that was asked for, if one was.
pub NameIs : Option String → User → Type 0
NameIs none u = Unit
NameIs (some given) u = u.display_name ≡ trim_space given

-- The default group that an ID asks for; the empty one asks for none.
abbrev pub chosen : String → Option String
chosen id = if id == "" then none else some id

-- A row with the default group that was asked for, if one was.
pub DefaultIs : Option String → User → Type 0
DefaultIs none u = Unit
DefaultIs (some given) u = u.default_group_id ≡ chosen (trim_space given)

-- What holds of the row of a user.
abbrev Holds : (User → Type 0) → String → Db → Type 0
Holds Q sub db = (u : User) → find_user sub db.users ≡ some u → Q u

Holds-update_users :
    (Q : User → Type 0) (f : User → User) (sub : String) (us : List User) (u : User)
    → ((v : User) → (f v).sub ≡ v.sub)
    → ((v : User) → find_user sub us ≡ some v → Q (f v))
    → find_user sub (update_users f sub us) ≡ some u
    → Q u
unfolding find_user find_first update_users
Holds-update_users Q f sub [] u keeps q h = cc
Holds-update_users Q f sub (v ∷ us) u keeps q h = elim (Bool-cases (v.sub == sub)) [
  | inl same ↦
      let kept : ((f v).sub == sub) ≡ true = subst (λ x. (x == sub) ≡ true) (sym (keeps v)) same in
      let first = rw (same, kept) at h in
      let e : f v ≡ u = cc first in subst Q e (q v (rw same refl))
  | inr other ↦
      Holds-update_users Q f sub us u keeps (λ x k. q x (rw other k)) (rw (other, other) at h)
]

module _ (e : Engine) (sub : String) (f : User → User) (keeps : (u : User) → (f u).sub ≡ u.sub)
    (wrap : String → String → StoreError) (op : String) where
  -- What an update of the row makes true of it, unless the update failed.
  update-Holds :
      (P Q : User → Type 0) (fault : Option String) (db : Db)
      → ((u : User) → P u → Q (f u))
      → Holds P sub db
      → (met_row wrap op (exec e fault db (update_user_row f sub db)).0 ≡ ok tt)
      → Holds Q sub (exec e fault db (update_user_row f sub db)).1
  unfolding exec update_user_row
  update-Holds P Q (some msg) db gives p h = cc
  update-Holds P Q none db gives p h =
      λ u. Holds-update_users Q f sub db.users u keeps (λ v k. gives v (p v k))

abbrev Anyone : User → Type 0
Anyone u = Unit

no_row :
    (e : Engine) (op : String) (fault : Option String) (db : Db)
    → e.reports_rows ≡ true
    → met_row wrap_write_err op (exec e fault db (writes 0 db)).0 ≢ ok tt
unfolding exec require_affected
no_row e op (some msg) db counted h = cc
no_row e op none db counted h = cc (rw counted at h)

set_default_group-Holds :
    (e : Engine) (fault : Option String) (now : Time) (sub id : String) (db : Db)
    → e.reports_rows ≡ true
    → (set_default_group e fault now sub id db).0 ≡ ok tt
    → Holds (λ u. u.default_group_id ≡ chosen id) sub (set_default_group e fault now sub id db).1
unfolding set_default_group
set_default_group-Holds e fault now sub id db counted h = elim (Bool-cases (id == "")) [
  | inl cleared ↦ rw cleared (
      update-Holds e sub (λ u. record u { default_group_id = none; updated_at = now }) (λ u. refl)
        driver "clear default group" Anyone _ fault db (λ u t. refl) (λ u k. tt) (rw cleared at h))
  | inr named ↦ elim (Bool-cases (owns_group sub id db.groups)) [
    | inl owned ↦
        rw (named, owned)
          (update-Holds e sub (λ u. record u { default_group_id = some id; updated_at = now })
            (λ u. refl) wrap_write_err "set default group" Anyone _ fault db (λ u t. refl)
            (λ u k. tt) (rw (named, owned) at h))
    | inr foreign ↦
        absurd (no_row e "set default group" fault db counted (rw (named, foreign) at h))
  ]
]

set_display_name-Holds :
    (e : Engine) (fault : Option String) (now : Time) (sub name : String) (db : Db)
    (P : User → Type 0)
    → ((u : User) → P u → P (record u { display_name = name; updated_at = now }))
    → Holds P sub db
    → (set_display_name e fault now sub name db).0 ≡ ok tt
    → Holds (λ u. (u.display_name ≡ name) × P u) sub (set_display_name e fault now sub name db).1
unfolding set_display_name
set_display_name-Holds e fault now sub name db P stays =
    update-Holds e sub (λ u. record u { display_name = name; updated_at = now }) (λ u. refl) driver
      "set display name" P _ fault db (λ u p. (refl, stays u p))

-- What holds after a step, and after what follows it, holds at the end.
and_then-Post :
    {A B : Type 0} (Pre : A → World → Type 0) (Post : B → World → Type 0) (r : Step A × World)
    (f : A → World → Step B × World) (b : B)
    → ((a : A) → r.0 ≡ go a → Pre a r.1)
    → ((a : A) (w : World) → Pre a w → (f a w).0 ≡ go b → Post b (f a w).1)
    → (and_then r f).0 ≡ go b
    → Post b (and_then r f).1
and_then-Post Pre Post (go a, w) f b p q h = q a w (p a refl) h
and_then-Post Pre Post (halt x, w) f b p q h = cc

-- A row with the display name that is to be written, if one is.
abbrev Named : Option String → User → Type 0
Named none u = Unit
Named (some name) u = u.display_name ≡ name

-- What has been stored when UpdateMe answers.
pub record IsSaved (edit : MeEdit) (sub : String) (r : Response) (db : Db) : Type 0 where
  pub row : User
  pub stored_row : find_user sub db.users ≡ some row
  pub answered : r ≡ record { status = 200; body = me_body (me_of row) }
  pub named : NameIs edit.display_name row
  pub defaulted : DefaultIs edit.default_group_id row

Named-wanted_name :
    (given name : Option String) (w : World)
    → (wanted_name given w).0 ≡ go name
    → (u : User) → Named name u
    → NameIs given u
unfolding wanted_name NameIs
Named-wanted_name none name w h u k = tt
Named-wanted_name (some given) name w h u k = elim (Bool-cases (trim_space given == "")) [
  | inl blank ↦ cc (rw blank at h)
  | inr shown ↦
      let asked = rw shown at h in
      let same : some (trim_space given) ≡ name = cc asked in
      subst (λ x. Named x u → u.display_name ≡ trim_space given) same (λ x. x) k
]

DefaultIs-renamed :
    (given : Option String) (name : String) (now : Time) (u : User)
    → DefaultIs given u
    → DefaultIs given (record u { display_name = name; updated_at = now })
unfolding DefaultIs
DefaultIs-renamed none name now u h = tt
DefaultIs-renamed (some id) name now u h = h

module _ {D : Type 0} (env : Env D) (user : User) where
  save_default-Holds :
      (given : Option String) (w : World)
      → env.engine.reports_rows ≡ true
      → (save_default env user given w).0 ≡ go tt
      → Holds (DefaultIs given) user.sub (save_default env user given w).1.db
  unfolding save_default write stored DefaultIs
  save_default-Holds none w counted h = λ u k. tt
  save_default-Holds (some id) w counted h =
      set_default_group-Holds env.engine (env.fault w.ticks) (env.clock w.ticks) user.sub
        (trim_space id) w.db counted (of_stored-eq-go group_missing _ h)

  save_name-Holds :
      (name given : Option String) (w : World)
      → Holds (DefaultIs given) user.sub w.db
      → (save_name env user name w).0 ≡ go tt
      → Holds (λ u. Named name u × DefaultIs given u) user.sub (save_name env user name w).1.db
  unfolding save_name write stored
  save_name-Holds none given w p h = λ u k. (tt, p u k)
  save_name-Holds (some name) given w p h =
      set_display_name-Holds env.engine (env.fault w.ticks) (env.clock w.ticks) user.sub name w.db
        (DefaultIs given) (λ u. DefaultIs-renamed given name (env.clock w.ticks) u) p
        (of_stored-eq-go server_error _ h)

  abbrev answer_with : User → World → Step Response × World
  answer_with u = pure (record { status = 200; body = me_body (me_of u) })

  abbrev read_back : World → Step User × World
  read_back = stored server_error (read env (λ fault db. get_user fault db user.sub))

  read_back-found :
      (w : World) (u : User) → (read_back w).0 ≡ go u → find_user user.sub w.db.users ≡ some u
  unfolding read stored get_user
  read_back-found w u h =
      (query-eq-ok (env.fault w.ticks) "get user" (find_user user.sub w.db.users)
        (of_stored-eq-go server_error _ h)).0

  answer-IsSaved :
      (edit : MeEdit) (w : World) (r : Response)
      → Holds (λ u. NameIs edit.display_name u × DefaultIs edit.default_group_id u) user.sub w.db
      → (and_then (read_back w) answer_with).0 ≡ go r
      → IsSaved edit user.sub r (and_then (read_back w) answer_with).1.db
  unfolding read stored
  answer-IsSaved edit w r p =
      and_then-Post (λ u w'. (find_user user.sub w'.db.users ≡ some u) × (w'.db ≡ w.db))
        (λ x w'. IsSaved edit user.sub x w'.db) (read_back w) answer_with r
        (λ u h. (read_back-found w u h, refl))
        (λ u w' k h. record {
          row = u;
          stored_row = k.0;
          answered = cc h;
          named = (p u (subst (λ db. find_user user.sub db.users ≡ some u) k.1 k.0)).0;
          defaulted = (p u (subst (λ db. find_user user.sub db.users ≡ some u) k.1 k.0)).1;
        })

  -- When UpdateMe answers with 200 and the engine counts the rows of an update, the row of the
  -- user has the display name that the request asks for, trimmed, and its default group, or none for
  -- the empty ID, as far as it asks for them, and the answer shows that row.
  pub update_me-IsSaved :
      (edit : MeEdit) (w : World) (r : Response)
      → env.engine.reports_rows ≡ true
      → (update_me env user (some edit) w).0 ≡ go r
      → IsSaved edit user.sub r (update_me env user (some edit) w).1.db
  unfolding update_me body_or_bad
  update_me-IsSaved edit w r counted h =
      let post : Response → World → Type 0 = λ x w'. IsSaved edit user.sub x w'.db in
      elim (Bool-cases (not (is_some edit.display_name) && not (is_some edit.default_group_id))) [
        | inl nothing ↦ cc (rw nothing at h)
        | inr something ↦ rw something (
            and_then-Post (λ name w'. (u : User) → Named name u → NameIs edit.display_name u) post
              (wanted_name edit.display_name w) _ r
              (λ name k. Named-wanted_name edit.display_name name w k)
              (λ name w₁ n.
                and_then-Post (λ a w'. Holds (DefaultIs edit.default_group_id) user.sub w'.db) post
                  (save_default env user edit.default_group_id w₁) _ r
                  (λ a. save_default-Holds edit.default_group_id w₁ counted)
                  (λ a w₂ d.
                    and_then-Post
                      (λ a w'.
                        Holds (λ u. Named name u × DefaultIs edit.default_group_id u) user.sub
                          w'.db)
                      post (save_name env user name w₂) _ r
                      (λ a. save_name-Holds name edit.default_group_id w₂ d)
                      (λ a w₃ p. answer-IsSaved edit w₃ r (λ u k. (n u (p u k).0, (p u k).1)))))
              (rw something at h))
      ]
