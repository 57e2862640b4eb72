-- ===== src/Config.antt =====
-- internal/config/config.go: `Load` from the values that viper gives, `validate`,
-- `UnreachableSpliitDefault` and the URLs that are made of the public URL. The merging of defaults, file
-- and environment is viper's.
pub mod Valid
use Prim.Native.String
use mathlib.Core.Option
use text.Mathlib.Text.{starts_with}
use spliit_mcp.Prelude.{
  ℕ, String, Bool, true, false, not, ◌&&◌, ◌||◌, List, [], ◌∷◌, Option, none, some, ◌==◌, any,
  if◌then◌else◌, is_some,
}
use spliit_mcp.Text.{trim_right_slashes}
use spliit_mcp.Text.Url.{Url, parse, hostname}
use spliit_mcp.Spliit.Links.{trim_suffix}

-- OIDCConfig
pub record OidcConfig : Type 0 where
  pub issuer : String
  pub client_id : String
  pub client_secret : String
  pub scopes : List String
  pub mcp_scopes : List String
  pub mcp_client_id : String
  pub required_scopes : List String
  pub state_secret : String
  pub skip_audience_check : Bool

-- SpliitConfig
pub record SpliitConfig : Type 0 where
  pub default_url : String
  pub default_name : String
  pub timeout : ℕ

-- Config; MCPConfig is its field `stateless`.
pub record Config : Type 0 where
  pub listen : String
  pub public_url : String
  pub web_dir : String
  pub database_url : String
  pub oidc : OidcConfig
  pub spliit : SpliitConfig
  pub stateless : Bool
  pub session_ttl : ℕ
  pub session_cookie_secure : Bool

-- What viper answers for a key, once it has read the defaults, the file and the environment.
pub record Values : Type 0 where
  pub text : String → String
  pub texts : String → List String
  pub flag : String → Bool
  pub duration : String → ℕ
  pub has_value : String → Bool

-- The errors of `validate`: the key that is required, or the public URL that cannot be parsed.
pub data Invalid : Type 0 where
  required : String → Invalid
  bad_public_url : Invalid

pub data Loaded : Type 0 where
  loaded : Config → Loaded
  invalid : Invalid → Loaded

-- The configuration of some values, before it is validated.
unfoldable pub config_of : Values → Config
unfolding trim_right_slashes
config_of v =
    let public_url = trim_right_slashes (v.text "public_url") in
    record {
      listen = v.text "listen";
      public_url = public_url;
      web_dir = v.text "web_dir";
      database_url = v.text "database_url";
      oidc = record {
        issuer = trim_right_slashes (v.text "oidc.issuer");
        client_id = v.text "oidc.client_id";
        client_secret = v.text "oidc.client_secret";
        scopes = v.texts "oidc.scopes";
        mcp_scopes = v.texts "oidc.mcp_scopes";
        mcp_client_id = v.text "oidc.mcp_client_id";
        required_scopes = v.texts "oidc.required_scopes";
        state_secret = v.text "oidc.state_secret";
        skip_audience_check = v.flag "oidc.skip_audience_check";
      };
      spliit = record {
        default_url = trim_right_slashes (v.text "spliit.default_url");
        default_name = v.text "spliit.default_name";
        timeout = v.duration "spliit.timeout";
      };
      stateless = v.flag "mcp.stateless";
      session_ttl = v.duration "session.ttl";
      session_cookie_secure =
          if v.has_value "session.cookie_secure"
          then v.flag "session.cookie_secure"
          else starts_with public_url "https://";
    }

-- `validate`: the first complaint, if there is one.
unfoldable pub validate : Config → Option Invalid
unfolding parse
validate c =
    if c.public_url == ""
    then some (required "public_url")
    else if not (is_some (parse c.public_url))
    then some bad_public_url
    else if c.database_url == ""
    then some (required "database_url")
    else if c.oidc.issuer == ""
    then some (required "oidc.issuer")
    else if c.oidc.client_id == ""
    then some (required "oidc.client_id")
    else if c.spliit.default_url == ""
    then some (required "spliit.default_url")
    else none

abbrev validated : Config → Option Invalid → Loaded
validated c none = loaded c
validated c (some x) = invalid x

-- `Load`
unfoldable pub load : Values → Loaded
unfolding config_of validate
load v = validated (config_of v) (validate (config_of v))

-- strings.HasSuffix
unfoldable pub has_suffix : String → String → Bool
unfolding trim_suffix
has_suffix s suffix = not (trim_suffix s suffix == s)

abbrev unreachable_at : Config → Option Url → Bool
unreachable_at c none = false
unreachable_at c (some url) =
    any (has_suffix (hostname url)) (".svc" ∷ ".svc.cluster.local" ∷ ".local" ∷ ".internal" ∷ [])
    || (hostname url == "localhost" && not (starts_with c.public_url "http://localhost"))

-- `UnreachableSpliitDefault`
unfoldable pub unreachable_spliit_default : Config → Bool
unfolding parse hostname has_suffix any
unreachable_spliit_default c = unreachable_at c (parse c.spliit.default_url)

-- `RedirectURI`
unfoldable pub redirect_uri : Config → String
redirect_uri c = String.◌++◌ c.public_url "/auth/callback"

-- `MCPResourceURL`
unfoldable pub mcp_resource_url : Config → String
mcp_resource_url c = String.◌++◌ c.public_url "/mcp"

-- `ResourceMetadataURL`
unfoldable pub resource_metadata_url : Config → String
resource_metadata_url c = String.◌++◌ c.public_url "/.well-known/oauth-protected-resource"
