-- ===== src/Web/Reply.antt =====
-- What a handler of internal/handlers answers: `writeError`, `serverError` and the payloads of the
-- JSON responses. A handler stops at its first answer.
pub mod Steps
pub mod Keeps
use Prim.Native.String
use spliit_mcp.Prelude.{ℕ, String, Bool, Option, none, some, List}
use spliit_mcp.Store.Rows.{StoreError, User, Group, Result, ok, err}
use spliit_mcp.Spliit.Model.{Participant}
use spliit_mcp.Tools.Outcome.{Outcome, Failure, done, fail}
use spliit_mcp.Tools.World.{World, Action}

-- The fields of `meResponse`.
pub record Me : Type 0 where
  pub sub : String
  pub email : String
  pub display_name : String
  pub default_group_id : String

-- groupView
pub record GroupView : Type 0 where
  pub group : Group
  pub host : String
  pub url : String
  pub needs_setup : Bool

-- The answer of PreviewGroup.
pub record Preview : Type 0 where
  pub group_id : String
  pub base_url : String
  pub host : String
  pub name : String
  pub currency : String
  pub participants : List Participant
  pub suggested_participant : String
  pub suggested_from_name : String
  pub suggestion_is_ambiguous : Bool

-- The answer of GetConfig.
pub record ClientConfig : Type 0 where
  pub mcp_url : String
  pub issuer : String
  pub mcp_client_id : String

-- The body of a response: an error's message, a message that ends in an error's text, the message of
-- a name that is too short, the message of an alias that is taken for a group that now exists, or a
-- payload.
pub data Body : Type 0 where
  error : String → Body
  error_of : String → Failure → Body
  short_name : String → Body
  alias_taken : String → Body
  me_body : Me → Body
  groups_body : List GroupView → Body
  preview_body : Preview → Body
  group_body : Group → Body
  config_body : ClientConfig → Body
  empty : Body

pub record Response : Type 0 where
  pub status : ℕ
  pub body : Body

-- A handler goes on with a value, or has answered.
pub data Step {ℓ} (A : Type ℓ) : Type ℓ where
  go : A → Step A
  halt : Response → Step A

abbrev pub Handler {ℓ} : Type ℓ → Type ℓ
Handler A = World → Step A × World

abbrev pub and_then {ℓ κ} :
    {A : Type ℓ} {B : Type κ} → Step A × World → (A → World → Step B × World) → Step B × World
and_then (go a, w) f = f a w
and_then (halt r, w) f = (halt r, w)

infixl 5 ◌>>=◌
abbrev pub ◌>>=◌ {ℓ κ} :
    {A : Type ℓ} {B : Type κ} → Handler A → (A → World → Step B × World) → World → Step B × World
◌>>=◌ m f w = and_then (m w) f

abbrev pub pure {ℓ} : {A : Type ℓ} → A → Handler A
pure a w = (go a, w)

abbrev pub answer {ℓ} : {A : Type ℓ} → ℕ → Body → Handler A
answer status body w = (halt (record { status = status; body = body }), w)

-- `serverError`
abbrev pub internal_error : Response
internal_error = record { status = 500; body = error "internal error" }

abbrev pub server_error : StoreError → Response
server_error x = internal_error

-- A decoded body, or the answer to one that cannot be decoded.
unfoldable pub body_or_bad {ℓ} : {A : Type ℓ} → Option A → Handler A
body_or_bad none = answer 400 (error "invalid request body")
body_or_bad (some a) = pure a

abbrev pub of_stored {ℓ} : {A : Type ℓ} → (StoreError → Response) → Outcome (Result A) → Step A
of_stored f (done (ok a)) = go a
of_stored f (done (err x)) = halt (f x)
of_stored f (fail x) = halt internal_error

-- An operation of the store, with the answer to each of its errors.
unfoldable pub stored {ℓ} :
    {A : Type ℓ} → (StoreError → Response) → (World → Outcome (Result A) × World) → Handler A
stored f m w = let (r, w') = m w in (of_stored f r, w')

abbrev pub of_asked {ℓ} : {A : Type ℓ} → String → Outcome A → Step A
of_asked message (done a) = go a
of_asked message (fail x) = halt (record { status = 502; body = error_of message x })

-- A call to a Spliit instance; an error of it is a bad gateway, whose message is shown.
unfoldable pub asked {ℓ} : {A : Type ℓ} → String → Action A → Handler A
asked message m w = let (r, w') = m w in (of_asked message r, w')

abbrev pub of_looked_up {ℓ} : {A : Type ℓ} → Outcome (Result A) → Step (Result A)
of_looked_up (done r) = go r
of_looked_up (fail x) = halt internal_error

-- An operation of the store whose result the handler examines.
unfoldable pub looked_up {ℓ} :
    {A : Type ℓ} → (World → Outcome (Result A) × World) → Handler (Result A)
looked_up m w = let (r, w') = m w in (of_looked_up r, w')
