-- ===== src/Oidc/Scopes.antt =====
-- What an accepted token has been checked for.
use spliit_mcp.Prelude.{
  String, ◌≡◌, refl, true, Option, none, some, List, [], ◌∷◌, All, Bool-cases, Option-cases, ◌+◌,
  inl, inr, subst,
}
use spliit_mcp.Store.Rows.{Time}
use spliit_mcp.Oidc.{
  max_verify_cache_ttl, TokenInfo, TokenClaims, Refusal, Verdict, accepted, refused, Reply, claims,
  failure, Settings, Provider, has_text, check_audience, check_scopes, or_refuse, checked_info,
  read_jwt, or_later, read_introspection, introspect, or_introspect, verify_uncached,
}

-- The token has every scope that the settings require.
abbrev pub HasScopes : Settings → TokenInfo → Type 0
HasScopes s info = All (λ scope. has_text info.scopes scope ≡ true) s.required_scopes

check_scopes-none :
    (required granted : List String)
    → check_scopes required granted ≡ none
    → All (λ scope. has_text granted scope ≡ true) required
unfolding check_scopes
check_scopes-none [] granted h = tt
check_scopes-none (r ∷ rs) granted h = elim (Bool-cases (has_text granted r)) [
  | inl listed ↦ (listed, check_scopes-none rs granted (rw listed at h))
  | inr missing ↦ cc (rw missing at h)
]

or_refuse-accepted :
    (o : Option Refusal) (v : Verdict TokenInfo) (info : TokenInfo)
    → or_refuse o v ≡ accepted info
    → (o ≡ none) × (v ≡ accepted info)
or_refuse-accepted none v info h = (refl, h)
or_refuse-accepted (some r) v info h = cc

accepted-eq : (a b : TokenInfo) → accepted a ≡ accepted b → a ≡ b
accepted-eq a b h = cc

checked_info-HasScopes :
    (s : Settings) (c : TokenClaims) (x : Option Time) (info : TokenInfo)
    → checked_info s c x ≡ accepted info
    → HasScopes s info
unfolding checked_info
checked_info-HasScopes s c x info h =
    let (_, h1) = or_refuse-accepted (check_audience s c.audience) _ info h in
    let (granted, h2) = or_refuse-accepted (check_scopes s.required_scopes c.scopes) _ info h1 in
    subst (HasScopes s) (accepted-eq _ info h2)
      (check_scopes-none s.required_scopes c.scopes granted)

read_introspection-HasScopes :
    (s : Settings) (later : Time) (r : Reply) (info : TokenInfo)
    → read_introspection s later r ≡ accepted info
    → HasScopes s info
unfolding checked_info
read_introspection-HasScopes s later (failure msg) info h = cc
read_introspection-HasScopes s later (claims c) info h = elim (Bool-cases c.active) [
  | inl active ↦ checked_info-HasScopes s c (or_later later c.expiration) info (rw active at h)
  | inr inactive ↦ cc (rw inactive at h)
]

read_jwt-HasScopes :
    (s : Settings) (r : Reply) (info : TokenInfo) → read_jwt s r ≡ accepted info → HasScopes s info
read_jwt-HasScopes s (failure msg) info h = cc
read_jwt-HasScopes s (claims c) info h = checked_info-HasScopes s c c.expiration info h

module _ (p : Provider) where
  introspect-HasScopes :
      (now : Time) (token : String) (info : TokenInfo)
      → introspect p now token ≡ accepted info
      → HasScopes p.settings info
  unfolding introspect
  introspect-HasScopes now token info h = elim (Option-cases p.resource_server) [
    | inl absent ↦ cc (rw absent at h)
    | inr (ask, there) ↦
        read_introspection-HasScopes p.settings (now + max_verify_cache_ttl) (ask token) info
          (rw there at h)
  ]

  or_introspect-HasScopes :
      (now : Time) (token : String) (v : Verdict TokenInfo) (server : Option (String → Reply))
      (info : TokenInfo)
      → ((i : TokenInfo) → v ≡ accepted i → HasScopes p.settings i)
      → or_introspect p now token v server ≡ accepted info
      → HasScopes p.settings info
  or_introspect-HasScopes now token (accepted i) server info good h = good info h
  or_introspect-HasScopes now token (refused r) none info good h = cc
  or_introspect-HasScopes now token (refused r) (some ask) info good h =
      introspect-HasScopes now token info h

  -- A token that is accepted, by its signature or by introspection, has every required scope.
  pub verify_uncached-HasScopes :
      (now : Time) (token : String) (info : TokenInfo)
      → verify_uncached p now token ≡ accepted info
      → HasScopes p.settings info
  unfolding verify_uncached
  verify_uncached-HasScopes now token info h = elim (Option-cases p.verifier) [
    | inl absent ↦ introspect-HasScopes now token info (rw absent at h)
    | inr (verify, there) ↦
        or_introspect-HasScopes now token (read_jwt p.settings (verify token)) p.resource_server
          info (λ i. read_jwt-HasScopes p.settings (verify token) i) (rw there at h)
  ]
