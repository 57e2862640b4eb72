-- ===== src/Web/Groups/Suggestion.antt =====
-- The participant that PreviewGroup suggests.
use mathlib.Core.List.{Memᴰ}
use spliit_mcp.Prelude.{
  ℕ, String, ◌≡◌, ◌≢◌, refl, sym, subst, Bool, true, List, [], ◌∷◌, Option, none, some, Bool-cases,
  inl, inr,
}
use spliit_mcp.Text.{trim_space, equal_fold}
use spliit_mcp.Store.Rows.{User}
use spliit_mcp.Spliit.Model.{Participant, Group}
use spliit_mcp.Spliit.Participants.{present}
use spliit_mcp.Tools.World.{Env, World}
use spliit_mcp.Web.Reply.{
  Response, Preview, preview_body, Step, go, halt, and_then, pure, asked, body_or_bad, ◌>>=◌,
}
use spliit_mcp.Tools.Clients
use spliit_mcp.Web.Groups.{matching, only_id, preview, preview_of, resolve_base_url, given_id}

module _ (fold : ℕ → ℕ) (name : String) where
  -- A participant whose name is the user's, up to case and surrounding space.
  abbrev pub has_users_name : Participant → Bool
  has_users_name p = equal_fold fold (trim_space p.name) (trim_space name)

  mem-matching :
      (ps : List Participant) (q : Participant)
      → Memᴰ q ps
      → has_users_name q ≡ true
      → Memᴰ q (matching fold name ps)
  unfolding matching
  mem-matching [] q m t = elim m [ ]
  mem-matching (p ∷ ps) q (Memᴰ.head e) t =
      rw (subst (λ x. has_users_name x ≡ true) e t) (Memᴰ.head e)
  mem-matching (p ∷ ps) q (Memᴰ.tail m) t = elim (Bool-cases (has_users_name p)) [
    | inl same ↦ rw same (Memᴰ.tail (mem-matching ps q m t))
    | inr other ↦ rw other (mem-matching ps q m t)
  ]

  in_cons :
      (p : Participant) (ps : List Participant) (q : Participant)
      → has_users_name p ≡ true
      → (Memᴰ q (matching fold name ps) → Memᴰ q ps × (has_users_name q ≡ true))
      → Memᴰ q (p ∷ matching fold name ps)
      → Memᴰ q (p ∷ ps) × (has_users_name q ≡ true)
  in_cons p ps q same f (Memᴰ.head e) =
      (Memᴰ.head e, subst (λ x. has_users_name x ≡ true) (sym e) same)
  in_cons p ps q same f (Memᴰ.tail m) = let k = f m in (Memᴰ.tail k.0, k.1)

  matching-mem :
      (ps : List Participant) (q : Participant)
      → Memᴰ q (matching fold name ps)
      → Memᴰ q ps × (has_users_name q ≡ true)
  unfolding matching
  matching-mem [] q m = elim m [ ]
  matching-mem (p ∷ ps) q m = elim (Bool-cases (has_users_name p)) [
    | inl same ↦ in_cons p ps q same (matching-mem ps q) (rw same at m)
    | inr other ↦ let k = matching-mem ps q (rw other at m) in (Memᴰ.tail k.0, k.1)
  ]

  -- The one participant of a list who has the user's name.
  pub record Only (ps : List Participant) (id : String) : Type 0 where
    pub who : Participant
    pub listed : Memᴰ who ps
    pub named : has_users_name who ≡ true
    pub has_id : who.id ≡ id
    pub alone : (q : Participant) → Memᴰ q ps → has_users_name q ≡ true → q ≡ who

  single : (q p : Participant) → Memᴰ q (p ∷ []) → q ≡ p
  single q p (Memᴰ.head e) = e
  single q p (Memᴰ.tail m) = elim m [ ]

  Only-of-matching :
      (ps ms : List Participant) (id : String)
      → matching fold name ps ≡ ms
      → only_id ms ≡ id
      → id ≢ ""
      → Only ps id
  Only-of-matching ps [] id e h some_id = absurd (some_id (sym h))
  Only-of-matching ps (p ∷ (q ∷ ms)) id e h some_id = absurd (some_id (sym h))
  Only-of-matching ps (p ∷ []) id e h some_id =
      let found = matching-mem ps p (subst (λ l. Memᴰ p l) (sym e) (Memᴰ.head refl)) in
      record {
        who = p;
        listed = found.0;
        named = found.1;
        has_id = h;
        alone = λ q m t. single q p (subst (λ l. Memᴰ q l) e (mem-matching ps q m t));
      }

module _ {D : Type 0} (env : Env D) (default_url : String) (user : User) where
  abbrev shown : Preview → Response
  shown v = record { status = 200; body = preview_body v }

  abbrev PreviewOf : String → Preview → Type 0
  PreviewOf base_url v =
      (id : String) × (group : Group) × (preview_of env default_url user id base_url group ≡ v)

  preview-of-group :
      (base_url id : String) (r : Step Group × World) (v : Preview)
      → (and_then r (λ group. pure (shown (preview_of env default_url user id base_url group)))).0
        ≡ go (shown v)
      → PreviewOf base_url v
  preview-of-group base_url id (go group, w) v h = (id, group, cc h)
  preview-of-group base_url id (halt x, w) v h = cc

  preview-of-id :
      (base_url : String) (r : Step String × World) (v : Preview)
      → (and_then r (λ id.
          asked "could not fetch that group: " (Clients.get_group env base_url id) >>= λ group.
          pure (shown (preview_of env default_url user id base_url group)))).0
        ≡ go (shown v)
      → PreviewOf base_url v
  preview-of-id base_url (go id, w) v h =
      preview-of-group base_url id
        (asked "could not fetch that group: " (Clients.get_group env base_url id) w) v h
  preview-of-id base_url (halt x, w) v h = cc

  preview-PreviewOf :
      (ref url : String) (w : World) (v : Preview)
      → (preview env default_url user (some (ref, url)) w).0 ≡ go (shown v)
      → PreviewOf (resolve_base_url default_url url ref) v
  unfolding preview body_or_bad
  preview-PreviewOf ref url w v h =
      preview-of-id (resolve_base_url default_url url ref) (given_id ref w) v h

  -- A preview that suggests a participant lists that participant, who is the only one listed whose
  -- name is the user's display name, up to case and surrounding space.
  pub preview-Only :
      (given : Option (String × String)) (w : World) (v : Preview)
      → (preview env default_url user given w).0
        ≡ go (record { status = 200; body = preview_body v })
      → v.suggested_participant ≢ ""
      → Only env.fold user.display_name v.participants v.suggested_participant
  unfolding preview preview_of body_or_bad
  preview-Only none w v h s = cc
  preview-Only (some (ref, url)) w v h s =
      let (id, group, made) = preview-PreviewOf ref url w v h in
      subst (λ x. Only env.fold user.display_name x.participants x.suggested_participant) made
        (Only-of-matching env.fold user.display_name (present group.participants) _ _ refl refl
          (subst (λ x. x.suggested_participant ≢ "") (sym made) s))
