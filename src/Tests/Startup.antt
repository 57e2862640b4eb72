-- ===== src/Tests/Startup.antt =====
-- The configuration and the migrations on concrete values.
use spliit_mcp.Prelude.{
  ℕ, ◌≡◌, refl, String, true, false, List, [], ◌∷◌, Option, none, some, ◌==◌, if◌then◌else◌, eqb,
}
use spliit_mcp.Config.{
  Config, Values, loaded, invalid, required, config_of, load, unreachable_spliit_default,
}
use spliit_mcp.Config.Valid.{IsValid, load-IsValid}
use spliit_mcp.Migrations.{
  File, Migration, Schema, Statement, commit, failed, Ran, ran, migrate, target_of,
}
use spliit_mcp.Web.Published.{metadata}

abbrev given_text : String → String
given_text key =
    if key == "public_url"
    then "https://expenses.example.com/"
    else if key == "database_url"
    then "spliit-mcp.db"
    else if key == "oidc.issuer"
    then "https://idp.example.com//"
    else if key == "oidc.client_id"
    then "web"
    else if key == "spliit.default_url"
    then "http://spliit.apps.svc.cluster.local/api/trpc"
    else ""

abbrev pub values : Values
values = record {
  text = given_text;
  texts = λ key. [];
  flag = λ key. false;
  duration = λ key. 30;
  has_value = λ key. false;
}

loads : load values ≡ loaded (config_of values)
unfolding load
loads = refl

load-IsValid_example :
    ((c : Config) → load values ≡ loaded c → (config_of values ≡ c) × IsValid c)
    × (IsValid (config_of values) → load values ≡ loaded (config_of values))
load-IsValid_example = load-IsValid values

derives_secure : (config_of values).session_cookie_secure ≡ true
unfolding config_of
derives_secure = refl

warns : unreachable_spliit_default (config_of values) ≡ true
unfolding unreachable_spliit_default config_of
warns = refl

refuses_no_issuer :
    load (record values { text = λ key. if key == "oidc.issuer" then "/" else given_text key })
    ≡ invalid (required "oidc.issuer")
unfolding load
refuses_no_issuer = refl

adds_pragmas :
    target_of "data.db?mode=rw"
    ≡ "data.db?mode=rw&_pragma=foreign_keys(1)&_pragma=busy_timeout(5000)"
unfolding target_of
adds_pragmas = refl

abbrev file : String → File
file name = record { name = name; is_dir = false; body = name }

abbrev files : List File
files =
    file "003_user_default_group.sql"
    ∷ file "001_initial.sql"
    ∷ file "README.md"
    ∷ file "002_group_uniqueness_per_user.sql"
    ∷ []

abbrev step : ℕ → String → Migration
step version name = record { version = version; name = name; sql = name }

abbrev steps : List Migration
steps =
    step 1 "001_initial.sql"
    ∷ step 2 "002_group_uniqueness_per_user.sql"
    ∷ step 3 "003_user_default_group.sql"
    ∷ []

-- A database whose tables are the scripts that were run.
abbrev log : String → List String → Ran (List String)
log sql ran_before = ran (sql ∷ ran_before)

abbrev fresh : Schema (List String)
fresh = record { tables = []; versions = [] }

abbrev lost : Statement → Option String
lost (commit n) = if eqb n 2 then some "connection lost" else none
lost st = none

stops_at_two : migrate log lost files fresh ≡ (
  some (failed (commit 2) "connection lost"),
  record { tables = "001_initial.sql" ∷ []; versions = 1 ∷ [] },
)
unfolding migrate
stops_at_two = refl

abbrev granted : List String
granted = "openid" ∷ "offline_access" ∷ "spliit" ∷ []

abbrev with_scopes : Config
with_scopes = config_of (record values {
  texts = λ key.
      if key == "oidc.scopes"
      then "openid" ∷ []
      else if key == "oidc.required_scopes"
      then "spliit" ∷ "openid" ∷ []
      else [];
})

publishes : (metadata with_scopes).scopes_supported ≡ some ("openid" ∷ "spliit" ∷ [])
unfolding metadata config_of
publishes = refl
