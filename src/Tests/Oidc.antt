-- ===== src/Tests/Oidc.antt =====
-- Runs of the verification of access tokens.
use spliit_mcp.Prelude.{ℕ, String, ◌≡◌, ◌≤◌, refl, true, false, Option, some, List, [], ◌∷◌, arith}
use spliit_mcp.Oidc.{
  TokenInfo, accepted, Reply, claims, failure, Provider, Entry, Readings, get, verify_uncached,
  verify_token,
}
use spliit_mcp.Oidc.Cache.{IsSound, verify_token-IsSound, get-unexpired}
use spliit_mcp.Oidc.Scopes.{HasScopes, verify_uncached-HasScopes}

abbrev answer : String → Reply
answer token = claims (record {
  active = true;
  audience = "https://mcp" ∷ [];
  scopes = "openid" ∷ "spliit" ∷ [];
  expiration = some 900;
  subject = "ann";
  email = "";
})

abbrev provider : Provider
provider = record {
  settings = record {
    skip_audience_check = false;
    resource_url = "https://mcp";
    mcp_client_id = "";
    required_scopes = "spliit" ∷ [];
  };
  hash = λ token. 7;
  verifier = some (λ token. failure "opaque");
  resource_server = some answer;
}

abbrev ann_info : TokenInfo
ann_info = record {
  scopes = "openid" ∷ "spliit" ∷ [];
  expiration = some 900;
  user_id = "ann";
  email = "";
}

accepts_ann : verify_uncached provider 100 "t" ≡ accepted ann_info
unfolding verify_uncached
accepts_ann = refl

verify_uncached-HasScopes_example : HasScopes provider.settings ann_info
verify_uncached-HasScopes_example = verify_uncached-HasScopes provider 100 "t" ann_info accepts_ann

abbrev readings : Readings
readings = record { looked = 700; verified = 701; stored = 702; compared = 703; swept = 704 }

abbrev cached : List Entry
cached = record { key = 7; info = ann_info; expires = 800 } ∷ []

expires_before : (x : ℕ) → ◌≡◌ {A = Option ℕ} (some 900) (some x) → 800 ≤ x
expires_before x h = let e : 900 ≡ x = ground arith in omega (arith, e)

cached-IsSound : IsSound cached
cached-IsSound = record { bounded = omega arith; fresh = (λ x h. expires_before x h, tt) }

verify_token-IsSound_example : IsSound (verify_token provider readings "t" cached).1
verify_token-IsSound_example = verify_token-IsSound provider readings "t" cached cached-IsSound

finds_ann : (get 700 7 cached).0 ≡ some ann_info
unfolding get
finds_ann = refl

get-unexpired_example : 700 ≤ 900
get-unexpired_example = get-unexpired 700 7 cached ann_info 900 cached-IsSound finds_ann refl
