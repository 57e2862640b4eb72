-- ===== src/Oidc/Cache.antt =====
-- The verification cache of internal/oidc/oidc.go: its size, and how long it trusts a token.
use spliit_mcp.Prelude.{
  ℕ, ◌+◌, ◌≤◌, String, ◌≡◌, ap, ◌∙◌, Bool, not, Option, none, some, List, [], ◌∷◌, keep, find_first,
  All-find_first, length, ltb, All, All-keep, Bool-cases, Option-cases, inl, inr, arith,
}
use spliit_mcp.Store.Rows.{Time}
use spliit_mcp.Oidc.{
  max_verify_cache_ttl, TokenInfo, Verdict, accepted, refused, Provider, Entry, has_key, delete_key,
  live_or_gone, get, earlier_of, sweep, put, Readings, remember, or_verify, verify_token,
}

-- An entry does not outlive its token.
abbrev pub IsFresh : Entry → Type 0
IsFresh e = (x : Time) → e.info.expiration ≡ some x → e.expires ≤ x

-- The cache holds at most 1025 entries, none of which outlives its token.
pub record IsSound (es : List Entry) : Type 0 where
  pub bounded : length es ≤ 1025
  pub fresh : All IsFresh es

some-eq : (a b : TokenInfo) → some a ≡ some b → a ≡ b
some-eq a b h = cc

length-keep : {A : Type 0} (p : A → Bool) (xs : List A) → length (keep p xs) ≤ length xs
unfolding keep
length-keep p [] = omega arith
length-keep p (x ∷ xs) = ground (arith, length-keep p xs)

length-sweep : (t : Time) (es : List Entry) → length (sweep t es) ≤ 1024
unfolding sweep
length-sweep t es = ground arith

sweep-IsFresh : (t : Time) (es : List Entry) → All IsFresh es → All IsFresh (sweep t es)
unfolding sweep
sweep-IsFresh t es a =
    let left : List Entry = keep (λ (e : Entry). not (ltb e.expires t)) es in
    elim (Bool-cases (ltb 1024 (length es))) [
      | inr small ↦ rw small a
      | inl large ↦ elim (Bool-cases (ltb 1024 (length left))) [
        | inl full ↦ rw (large, full) tt
        | inr swept ↦
            rw (large, swept) (All-keep IsFresh (λ (e : Entry). not (ltb e.expires t)) es a)
      ]
    ]

earlier_of-le : (cap : Time) (o : Option Time) (x : Time) → o ≡ some x → earlier_of cap o ≤ x
earlier_of-le cap none x h = cc
earlier_of-le cap (some y) x h = let e : y ≡ x = ground arith in ground (arith, e)

delete_key-IsSound : (key : ℕ) (es : List Entry) → IsSound es → IsSound (delete_key key es)
unfolding delete_key
delete_key-IsSound key es s = record {
  bounded =
      let shorter = length-keep (λ (e : Entry). not (has_key key e)) es in
      omega (arith, shorter, s.bounded);
  fresh = All-keep IsFresh (λ (e : Entry). not (has_key key e)) es s.fresh;
}

put-IsSound :
    (ttl : ℕ) (t1 t2 t3 : Time) (key : ℕ) (info : TokenInfo) (es : List Entry)
    → IsSound es
    → IsSound (put ttl t1 t2 t3 key info es)
unfolding put delete_key
put-IsSound ttl t1 t2 t3 key info es s =
    elim (Bool-cases (ltb t2 (earlier_of (t1 + ttl) info.expiration))) [
      | inr over ↦ rw over s
      | inl trusted ↦
          let small = length-sweep t3 es in
          let shorter = length-keep (λ (e : Entry). not (has_key key e)) (sweep t3 es) in
          rw trusted (record {
            bounded = omega (arith, small, shorter);
            fresh = (
              λ x h. earlier_of-le (t1 + ttl) info.expiration x h,
              All-keep IsFresh (λ (e : Entry). not (has_key key e)) (sweep t3 es)
                  (sweep-IsFresh t3 es s.fresh),
            );
          })
    ]

live_or_gone-IsSound :
    (now : Time) (key : ℕ) (es : List Entry) (o : Option Entry)
    → IsSound es
    → IsSound (live_or_gone now key es o).1
live_or_gone-IsSound now key es none s = s
live_or_gone-IsSound now key es (some e) s = elim (Bool-cases (ltb e.expires now)) [
  | inl over ↦ rw over (delete_key-IsSound key es s)
  | inr live ↦ rw live s
]

module _ (p : Provider) (t : Readings) where
  remember-IsSound :
      (key : ℕ) (es : List Entry) (v : Verdict TokenInfo)
      → IsSound es
      → IsSound (remember p t key es v).1
  remember-IsSound key es (accepted info) s =
      put-IsSound max_verify_cache_ttl t.stored t.compared t.swept key info es s
  remember-IsSound key es (refused r) s = s

  or_verify-IsSound :
      (token : String) (r : Option TokenInfo × List Entry)
      → IsSound r.1
      → IsSound (or_verify p t token r).1
  or_verify-IsSound token (some info, es) s = s
  or_verify-IsSound token (none, es) s = remember-IsSound (p.hash token) es _ s

  -- Every verification keeps the cache sound: at most 1025 entries, none of which outlives its token.
  pub verify_token-IsSound :
      (token : String) (es : List Entry) → IsSound es → IsSound (verify_token p t token es).1
  unfolding verify_token get
  verify_token-IsSound token es s =
      or_verify-IsSound token _ (live_or_gone-IsSound t.looked (p.hash token) es _ s)

-- What a sound cache returns has not expired.
pub get-unexpired :
    (now : Time) (key : ℕ) (es : List Entry) (info : TokenInfo) (x : Time)
    → IsSound es
    → (get now key es).0 ≡ some info
    → info.expiration ≡ some x
    → now ≤ x
unfolding get
get-unexpired now key es info x s h e = elim (Option-cases (find_first (has_key key) es)) [
  | inl absent ↦ cc (rw absent at h)
  | inr (entry, found) ↦
      let fresh = All-find_first (has_key key) IsFresh es entry s.fresh found in
      elim (Bool-cases (ltb entry.expires now)) [
        | inl over ↦ cc (rw (found, over) at h)
        | inr live ↦
            let same = some-eq entry.info info (rw (found, live) at h) in
            let bound = fresh x (ap (λ (i : TokenInfo). i.expiration) same ∙ e) in
            ground (arith, bound, live)
      ]
]
