-- ===== src/Web/Session.antt =====
-- `RequireSession`, the success of `CallbackHandler`, `LogoutHandler`, `LoginHandler`'s choice of the
-- host, `publicHost` and `hostnameOf` of internal/handlers/auth.go. The cookie is the value of the
-- session cookie, if the request has one.
pub mod Guard
pub mod Login
use Prim.Native.String
use spliit_mcp.Prelude.{
  ℕ, ◌+◌, ◌*◌, String, Bool, not, ◌&&◌, Option, none, some, ◌==◌, if◌then◌else◌,
}
use spliit_mcp.Text.Calendar.{day_ns}
use spliit_mcp.Text.Url.{Url, parse, hostname}
use spliit_mcp.Store.Rows.{Time, Session, User, Db, Result, StoreError, not_found, conflict, driver}
use spliit_mcp.Store.Users.{get_user, upsert_found}
use spliit_mcp.Store.Sessions.{get_session, create_session, delete_session}
use spliit_mcp.Tools.World.{Env, World, read, write}
use spliit_mcp.Tools.World
use spliit_mcp.Tools.Outcome.{Outcome, done, fail}
use spliit_mcp.Oidc.{Claims, NameClaims, claims_from_id_token, needs_userinfo, merge_userinfo}
use spliit_mcp.Web.Reply.{
  Response, Body, error, empty, Step, go, halt, Handler, ◌>>=◌, pure, answer, stored, looked_up,
  internal_error, server_error,
}

-- The answer to a failed lookup, where a missing row means that the user is not signed in.
abbrev pub unauthorized_or_internal : String → StoreError → Response
unauthorized_or_internal message not_found = record { status = 401; body = error message }
unauthorized_or_internal message other = internal_error

-- The cookie that `http.SetCookie` writes: the session's ID and its expiry.
pub record Cookie : Type 0 where
  pub value : String
  pub expires_at : Time
  pub secure : Bool

abbrev pub host_in : Option Url → String
host_in none = ""
host_in (some url) = hostname url

-- `publicHost`
unfoldable pub public_host : String → String
unfolding parse hostname
public_host public_url = host_in (parse public_url)

-- Whether `LoginHandler` bounces the browser to the public URL, for the host of the request without
-- its port.
unfoldable pub is_bounced : String → String → Bool
unfolding public_host
is_bounced public_url got =
    not (public_host public_url == "") && not (got == "") && not (got == public_host public_url)

abbrev pub cookie_of : Bool → Session → Cookie
cookie_of secure session = record {
  value = session.id;
  expires_at = session.expires_at;
  secure = secure;
}

-- A cookie that makes the browser forget the session: it is blank, and it expired at the start of the
-- year 1970, as its MaxAge says too.
abbrev pub cleared : Bool → Cookie
cleared secure = record { value = ""; expires_at = 719528 * day_ns; secure = secure }

module _ {D : Type 0} (env : Env D) where
  -- The instant at which a statement's arguments are made.
  abbrev pub instant : Handler Time
  instant w = (go (env.clock w.ticks), World.ticked w)

  abbrev cookie_or_unauthorized : Option String → Handler String
  cookie_or_unauthorized none = answer 401 (error "not signed in")
  cookie_or_unauthorized (some id) = pure id

  -- `RequireSession`: the user that it attaches to the request.
  unfoldable pub require_session : Option String → Handler User
  unfolding read get_session get_user stored
  require_session cookie = do
    id ← cookie_or_unauthorized cookie
    now ← instant
    session ←
        stored (unauthorized_or_internal "session expired")
          (read env (λ fault db. get_session fault now db id))
    stored (unauthorized_or_internal "user no longer exists")
        (read env (λ fault db. get_user fault db session.user_sub))

  -- `UpsertUser`
  unfoldable pub upsert : String → Claims → Handler User
  unfolding read write get_user upsert_found stored looked_up
  upsert issuer claims = do
    now ← instant
    found ← looked_up (read env (λ fault db. get_user fault db claims.subject))
    stored server_error (
        write env (λ fault later id db.
          upsert_found env.engine fault now claims.subject issuer claims.email claims.display_name
            found db))

  -- The claims of a login: those of the ID token, completed from the userinfo endpoint where it is
  -- needed and answers.
  unfoldable pub login_claims : String → NameClaims → Option NameClaims → Claims
  unfolding claims_from_id_token needs_userinfo merge_userinfo
  login_claims subject token info =
      let claims = claims_from_id_token subject token in
      if needs_userinfo claims then merge_userinfo claims info else claims

  -- The session of a user who logged in, and its cookie.
  unfoldable pub start_session : ℕ → Bool → User → Handler Cookie
  unfolding write create_session stored
  start_session ttl secure user = do
    session ←
        stored server_error
          (write env (λ fault now id db. create_session env.engine fault now id user.sub ttl db))
    pure (cookie_of secure session)

  -- `onSuccess` of CallbackHandler.
  unfoldable pub on_success :
      String → ℕ → Bool → String → NameClaims → Option NameClaims → Handler Cookie
  unfolding upsert login_claims start_session
  on_success issuer ttl secure subject token info = do
    user ← upsert issuer (login_claims subject token info)
    start_session ttl secure user

  -- `LogoutHandler`: its answer and the cookie that it sets. An error of the store is only logged.
  unfoldable pub logout : Bool → Option String → World → (Response × Cookie) × World
  unfolding write delete_session
  logout secure none w = ((record { status = 204; body = empty }, cleared secure), w)
  logout secure (some id) w =
      let (r, w') = write env (λ fault now fresh db. delete_session env.engine fault id db) w in
      ((record { status = 204; body = empty }, cleared secure), w')

  -- A route behind `RequireSession`.
  abbrev pub signed_in : Option String → (User → Handler Response) → Handler Response
  signed_in cookie route = do user ← require_session cookie; route user
