-- ===== src/Web/Published.antt =====
-- `GetConfig` of internal/handlers/api.go and `ProtectedResourceMetadata` of
-- internal/handlers/server.go.
pub mod Required
use spliit_mcp.Prelude.{
  ℕ, String, Bool, true, false, Option, none, some, List, [], ◌∷◌, ◌++◌, if◌then◌else◌,
}
use spliit_mcp.Config.{Config, mcp_resource_url}
use spliit_mcp.Web.Reply.{ClientConfig}
use spliit_mcp.Oidc.{Settings, has_text}

-- `GetConfig`
unfoldable pub client_config : Config → ClientConfig
unfolding mcp_resource_url
client_config c = record {
  mcp_url = mcp_resource_url c;
  issuer = c.oidc.issuer;
  mcp_client_id = c.oidc.mcp_client_id;
}

-- The answer of ProtectedResourceMetadata; `scopes_supported` is left out where it is empty.
pub record Metadata : Type 0 where
  pub resource : String
  pub authorization_servers : List String
  pub bearer_methods_supported : List String
  pub resource_name : String
  pub scopes_supported : Option (List String)

-- The loop that folds the required scopes in.
unfoldable pub fold_in : List String → List String → List String
unfolding has_text
fold_in scopes [] = scopes
fold_in scopes (r ∷ rs) =
    let kept = fold_in scopes rs in
    let longer = fold_in (scopes ++ r ∷ []) rs in if has_text scopes r then kept else longer

abbrev pub first_given : List String → List String → List String
first_given [] scopes = scopes
first_given (s ∷ ss) scopes = s ∷ ss

abbrev pub unless_empty : List String → Option (List String)
unless_empty [] = none
unless_empty (s ∷ ss) = some (s ∷ ss)

-- The scopes that a client is told to ask for.
unfoldable pub advertised : Config → List String
unfolding fold_in
advertised c = fold_in (first_given c.oidc.mcp_scopes c.oidc.scopes) c.oidc.required_scopes

-- `ProtectedResourceMetadata`
unfoldable pub metadata : Config → Metadata
unfolding mcp_resource_url advertised
metadata c = record {
  resource = mcp_resource_url c;
  authorization_servers = c.oidc.issuer ∷ [];
  bearer_methods_supported = "header" ∷ [];
  resource_name = "spliit-mcp";
  scopes_supported = unless_empty (advertised c);
}

-- The settings that the checks of an access token read from the configuration.
unfoldable pub settings_of : Config → Settings
unfolding mcp_resource_url
settings_of c = record {
  skip_audience_check = c.oidc.skip_audience_check;
  resource_url = mcp_resource_url c;
  mcp_client_id = c.oidc.mcp_client_id;
  required_scopes = c.oidc.required_scopes;
}
