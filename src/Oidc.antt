-- ===== src/Oidc.antt =====
-- internal/oidc/oidc.go: the verification of access tokens with its cache, and the claims of a login.
-- The OIDC library's calls and the hash are fields of `Provider`.
pub mod Cache
pub mod Scopes
use spliit_mcp.Prelude.{
  ℕ, ◌+◌, String, Bool, true, false, not, ◌&&◌, ◌||◌, Option, none, some, List, [], ◌∷◌, ◌==◌, any,
  keep, find_first, length, ltb, eqb, if◌then◌else◌,
}
use spliit_mcp.Store.Rows.{Time}

-- mcpauth.TokenInfo; a zero expiration is `none`.
pub record TokenInfo : Type 0 where
  pub scopes : List String
  pub expiration : Option Time
  pub user_id : String
  pub email : String

-- Why a token is not accepted. All but `unreachable` and `no_verifier` carry ErrInvalidToken.
pub data Refusal : Type 0 where
  not_verified : String → Refusal
  not_active : Refusal
  wrong_audience : List String → Refusal
  missing_scope : String → Refusal
  unreachable : String → Refusal
  no_verifier : Refusal

pub data Verdict (A : Type 0) : Type 0 where
  accepted : A → Verdict A
  refused : Refusal → Verdict A

-- What the library reads from a token, or from the provider about it.
pub record TokenClaims : Type 0 where
  pub active : Bool
  pub audience : List String
  pub scopes : List String
  pub expiration : Option Time
  pub subject : String
  pub email : String

pub data Reply : Type 0 where
  claims : TokenClaims → Reply
  failure : String → Reply

-- The settings that the checks read.
pub record Settings : Type 0 where
  pub skip_audience_check : Bool
  pub resource_url : String
  pub mcp_client_id : String
  pub required_scopes : List String

-- `maxVerifyCacheTTL`: five minutes, in nanoseconds.
abbrev pub max_verify_cache_ttl : ℕ
max_verify_cache_ttl = 300_000_000_000

-- The provider: its settings, the hash of a token, and the library's two ways to verify one.
pub record Provider : Type 0 where
  pub settings : Settings
  pub hash : String → ℕ
  pub verifier : Option (String → Reply)
  pub resource_server : Option (String → Reply)

-- `slices.Contains`
unfoldable pub has_text : List String → String → Bool
unfolding any
has_text texts s = any (λ t. t == s) texts

-- `checkAudience`
unfoldable pub check_audience : Settings → List String → Option Refusal
unfolding has_text
check_audience s audience =
    if s.skip_audience_check
      || has_text audience s.resource_url
      || (not (s.mcp_client_id == "") && has_text audience s.mcp_client_id)
    then none
    else some (wrong_audience audience)

-- `checkScopes`
unfoldable pub check_scopes : List String → List String → Option Refusal
unfolding has_text
check_scopes [] granted = none
check_scopes (required ∷ rest) granted =
    if has_text granted required then check_scopes rest granted else some (missing_scope required)

abbrev pub or_refuse : {A : Type 0} → Option Refusal → Verdict A → Verdict A
or_refuse none v = v
or_refuse (some r) v = refused r

-- The two checks, then the token's info with an expiration.
unfoldable pub checked_info : Settings → TokenClaims → Option Time → Verdict TokenInfo
unfolding check_audience check_scopes
checked_info s c expiration = or_refuse (check_audience s c.audience) (
    or_refuse (check_scopes s.required_scopes c.scopes) (
      accepted (record {
        scopes = c.scopes;
        expiration = expiration;
        user_id = c.subject;
        email = c.email;
      })))

-- `verifyJWT`
abbrev pub read_jwt : Settings → Reply → Verdict TokenInfo
read_jwt s (failure msg) = refused (not_verified msg)
read_jwt s (claims c) = checked_info s c c.expiration

-- The expiry of an introspected token: the cache's lifetime where the provider names none.
abbrev pub or_later : Time → Option Time → Option Time
or_later t none = some t
or_later t (some e) = some e

-- `introspect`
abbrev pub read_introspection : Settings → Time → Reply → Verdict TokenInfo
read_introspection s later (failure msg) = refused (unreachable msg)
read_introspection s later (claims c) =
    if c.active then checked_info s c (or_later later c.expiration) else refused not_active

module _ (p : Provider) where
  unfoldable pub introspect : Time → String → Verdict TokenInfo
  unfolding checked_info
  introspect now token = elim p.resource_server [
    | none ↦ refused no_verifier
    | some ask ↦ read_introspection p.settings (now + max_verify_cache_ttl) (ask token)
  ]

  abbrev pub or_introspect :
      Time → String → Verdict TokenInfo → Option (String → Reply) → Verdict TokenInfo
  or_introspect now token (accepted info) server = accepted info
  or_introspect now token (refused r) none = refused r
  or_introspect now token (refused r) (some ask) = introspect now token

  -- `verifyUncached`
  unfoldable pub verify_uncached : Time → String → Verdict TokenInfo
  unfolding checked_info introspect
  verify_uncached now token = elim p.verifier [
    | none ↦ introspect now token
    | some verify ↦ or_introspect now token (read_jwt p.settings (verify token)) p.resource_server
  ]

-- verifyCacheEntry, with its key
pub record Entry : Type 0 where
  pub key : ℕ
  pub info : TokenInfo
  pub expires : Time

abbrev pub has_key : ℕ → Entry → Bool
has_key key e = eqb e.key key

-- `delete(c.entries, key)`
unfoldable pub delete_key : ℕ → List Entry → List Entry
unfolding keep
delete_key key es = keep (λ e. not (has_key key e)) es

abbrev pub live_or_gone : Time → ℕ → List Entry → Option Entry → Option TokenInfo × List Entry
live_or_gone now key es none = (none, es)
live_or_gone now key es (some e) =
    if ltb e.expires now then (none, delete_key key es) else (some e.info, es)

-- `verifyCache.get`, at one reading of the clock
unfoldable pub get : Time → ℕ → List Entry → Option TokenInfo × List Entry
unfolding find_first delete_key
get now key es = live_or_gone now key es (find_first (has_key key) es)

-- The entry's expiry: the cap, or the token's where it is earlier.
abbrev pub earlier_of : Time → Option Time → Time
earlier_of cap none = cap
earlier_of cap (some e) = if ltb e cap then e else cap

-- The sweep of a full map: of what is expired, then of everything.
unfoldable pub sweep : Time → List Entry → List Entry
unfolding keep
sweep now es =
    let left = keep (λ (e : Entry). not (ltb e.expires now)) es in
    if ltb 1024 (length es) then (if ltb 1024 (length left) then [] else left) else es

-- `verifyCache.put`, at three readings of the clock
unfoldable pub put : ℕ → Time → Time → Time → ℕ → TokenInfo → List Entry → List Entry
unfolding sweep delete_key
put ttl t1 t2 t3 key info es =
    let expires = earlier_of (t1 + ttl) info.expiration in
    if ltb t2 expires
    then record { key = key; info = info; expires = expires } ∷ delete_key key (sweep t3 es)
    else es

-- The clock's readings of one verification.
pub record Readings : Type 0 where
  pub looked : Time
  pub verified : Time
  pub stored : Time
  pub compared : Time
  pub swept : Time

module _ (p : Provider) where
  abbrev pub remember :
      Readings → ℕ → List Entry → Verdict TokenInfo → Verdict TokenInfo × List Entry
  remember t key es (accepted info) =
      (accepted info, put max_verify_cache_ttl t.stored t.compared t.swept key info es)
  remember t key es (refused r) = (refused r, es)

  abbrev pub or_verify :
      Readings → String → Option TokenInfo × List Entry → Verdict TokenInfo × List Entry
  or_verify t token (some info, es) = (accepted info, es)
  or_verify t token (none, es) = remember t (p.hash token) es (verify_uncached p t.verified token)

  -- `TokenVerifier`
  unfoldable pub verify_token : Readings → String → List Entry → Verdict TokenInfo × List Entry
  unfolding get verify_uncached put
  verify_token t token es = or_verify t token (get t.looked (p.hash token) es)

-- Claims
pub record Claims : Type 0 where
  pub subject : String
  pub email : String
  pub display_name : String

-- The name claims of an ID token or of the userinfo endpoint.
pub record NameClaims : Type 0 where
  pub name : String
  pub preferred_username : String
  pub given_name : String
  pub email : String

-- `pickDisplayName`
unfoldable pub pick_display_name : List String → String
pick_display_name [] = ""
pick_display_name (c ∷ cs) = if c == "" then pick_display_name cs else c

abbrev pub candidates : NameClaims → String → List String
candidates n subject = n.name ∷ n.preferred_username ∷ n.given_name ∷ n.email ∷ subject ∷ []

-- `ClaimsFromIDToken`
unfoldable pub claims_from_id_token : String → NameClaims → Claims
unfolding pick_display_name
claims_from_id_token subject n = record {
  subject = subject;
  email = n.email;
  display_name = pick_display_name (candidates n subject);
}

-- `NeedsUserinfo`
unfoldable pub needs_userinfo : Claims → Bool
needs_userinfo c = c.email == "" || c.display_name == c.subject

abbrev pub or_kept : String → String → String
or_kept old new = if new == "" then old else new

-- `MergeUserinfo`
unfoldable pub merge_userinfo : Claims → Option NameClaims → Claims
unfolding pick_display_name
merge_userinfo c none = c
merge_userinfo c (some n) = record c {
  email = if c.email == "" then n.email else c.email;
  display_name =
      if c.display_name == "" || c.display_name == c.subject
      then or_kept c.display_name (pick_display_name (candidates n c.subject))
      else c.display_name;
}
