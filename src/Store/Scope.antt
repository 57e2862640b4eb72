-- ===== src/Store/Scope.antt =====
-- What a user can reach and change: `ResolveGroup`, `DefaultGroup` and the writes to `groups` are
-- scoped to the calling user.
use mathlib.Core.List.{Memᴰ}
use spliit_mcp.Prelude.{
  String, ◌≡◌, ◌↔◌, refl, subst, true, false, List, Option, none, some, arith, eq_iff, eq_refl,
  ◌==◌, ◌≢◌, Bool, Bool-cases, [], ◌∷◌, any, keep, Option-cases, &&-true, inl, inr, ◌⊎◌, find_first,
  find_first-passes, find_first-none, find_first-mem, find_first-of-none, any-weaker, any-of-mem,
}
use spliit_mcp.Store.Rows.{Group, Db, ok, err, not_found}
use spliit_mcp.Store.Sql.{query, one_row}
use spliit_mcp.Store.Groups.{clashes, refers, named_by, first_of_options, resolve_group}
use spliit_mcp.Store.Consistent.{IsConsistent, find_first-Distinct}

-- The rows of one user.
abbrev pub groups_of : String → Db → List Group
groups_of sub db = keep (λ (g : Group). g.user_sub == sub) db.groups

one_row-eq-ok : (o : Option Group) (g : Group) → one_row o ≡ ok g → o ≡ some g
one_row-eq-ok none g h = cc
one_row-eq-ok (some k) g h = ground arith

-- What `ResolveGroup` returns is listed and is one of the rows that the reference names.
resolved-refers :
    (db : Db) (sub ref : String) (g : Group)
    → resolve_group none db sub ref ≡ ok g
    → Memᴰ g db.groups × (refers sub ref g ≡ true)
unfolding resolve_group query
resolved-refers db sub ref g h = elim (Option-cases (find_first (named_by sub ref) db.groups)) [
  | inl unnamed ↦
      let e = one_row-eq-ok _ g (rw unnamed at h) in
      (
        find_first-mem (refers sub ref) db.groups g e,
        find_first-passes (refers sub ref) db.groups g e,
      )
  | inr (k, named) ↦
      let e : k ≡ g = ground arith in
      let e' = subst (λ x. find_first (named_by sub ref) db.groups ≡ some x) e named in
      (
        find_first-mem (named_by sub ref) db.groups g e',
        (&&-true (refers sub ref g) _ (find_first-passes (named_by sub ref) db.groups g e')).0,
      )
]

-- The group that a reference resolves to is a row of the table and the caller's own, and the
-- reference is its alias, its ID or its group's ID.
pub resolve_group-own :
    (fault : Option String) (db : Db) (sub ref : String) (g : Group)
    → resolve_group fault db sub ref ≡ ok g
    → Memᴰ g db.groups
      × (g.user_sub ≡ sub)
      × ((g.alias ≡ ref) ⊎ ((g.id ≡ ref) ⊎ (g.spliit_group_id ≡ ref)))
unfolding resolve_group query
resolve_group-own (some msg) db sub ref g h = cc
resolve_group-own none db sub ref g h =
    let (m, r) = resolved-refers db sub ref g h in
    (
      m,
      ground (arith, eq_iff g.user_sub sub),
      ground (arith, eq_iff g.alias ref, eq_iff g.id ref, eq_iff g.spliit_group_id ref),
    )

second_none : (o p : Option Group) → one_row (first_of_options o p) ≡ err not_found → p ≡ none
second_none none none h = refl
second_none none (some g) h = cc
second_none (some g) p h = cc

-- A row of the user's own whose alias, ID or group's ID is the reference.
pub record NamedRow (sub ref : String) (db : Db) (g : Group) : Type 0 where
  pub stored : Memᴰ g db.groups
  pub own : g.user_sub ≡ sub
  pub named : (g.alias ≡ ref) ⊎ ((g.id ≡ ref) ⊎ (g.spliit_group_id ≡ ref))

refers-of :
    (g : Group) (sub ref : String) (db : Db) → NamedRow sub ref db g → refers sub ref g ≡ true
refers-of g sub ref db n = elim n.named [
  | inl alias ↦ ground (arith, (eq_iff g.user_sub sub).1 n.own, (eq_iff g.alias ref).1 alias)
  | inr (inl id) ↦ ground (arith, (eq_iff g.user_sub sub).1 n.own, (eq_iff g.id ref).1 id)
  | inr (inr spliit) ↦
      ground (arith, (eq_iff g.user_sub sub).1 n.own, (eq_iff g.spliit_group_id ref).1 spliit)
]

-- Nothing is found by a test that a row passes only where it is not there.
find_first-none-of :
    (p : Group → Bool) (gs : List Group)
    → ((g : Group) → Memᴰ g gs → p g ≢ true)
    → find_first p gs ≡ none
unfolding find_first
find_first-none-of p [] h = refl
find_first-none-of p (g ∷ gs) h = elim (Bool-cases (p g)) [
  | inl hit ↦ absurd (h g (Memᴰ.head refl) hit)
  | inr miss ↦ rw miss (find_first-none-of p gs (λ x m. h x (Memᴰ.tail m)))
]

-- Without a fault, a reference is not found exactly when no row of the caller's own has it as its
-- alias, its ID or its group's ID.
pub resolve_group-not_found_iff :
    (db : Db) (sub ref : String)
    → (resolve_group none db sub ref ≡ err not_found) ↔ (¬ ((g : Group) × NamedRow sub ref db g))
unfolding resolve_group query
resolve_group-not_found_iff db sub ref = (
  λ h n.
      let missed : any (refers sub ref) db.groups ≡ false =
        find_first-none (refers sub ref) db.groups (
          second_none (find_first (named_by sub ref) db.groups)
            (find_first (refers sub ref) db.groups) h) in
      let (g, x) = n in
      cc (missed, any-of-mem (refers sub ref) x.stored (refers-of g sub ref db x)),
  λ h.
      let none_left = find_first-none-of (refers sub ref) db.groups (λ g m r. h (
        g,
        record {
          stored = m;
          own = ground (arith, eq_iff g.user_sub sub);
          named = ground (arith, eq_iff g.alias ref, eq_iff g.id ref, eq_iff g.spliit_group_id ref);
        },
      )) in
      let missed = find_first-none (refers sub ref) db.groups none_left in
      rw
        (
          find_first-of-none (named_by sub ref) db.groups
              (any-weaker (refers sub ref) (λ g. g.alias == ref) db.groups missed),
          find_first-of-none (refers sub ref) db.groups missed,
        )
        refl,
)

same_alias-clash :
    (g x y : Group)
    → named_by g.user_sub g.alias x ≡ true
    → named_by g.user_sub g.alias y ≡ true
    → clashes x y ≡ true
unfolding clashes
same_alias-clash g x y p q = ground (
  arith,
  eq_iff x.user_sub g.user_sub,
  eq_iff y.user_sub g.user_sub,
  eq_iff x.user_sub y.user_sub,
  eq_iff x.alias g.alias,
  eq_iff y.alias g.alias,
  eq_iff x.alias y.alias,
)

names_itself : (g : Group) → named_by g.user_sub g.alias g ≡ true
names_itself g = ground (arith, eq_refl g.user_sub, eq_refl g.alias)

-- In well-formed tables an alias always names its own group, whatever IDs equal it.
pub resolve_group-alias :
    (db : Db) (g : Group)
    → IsConsistent db
    → Memᴰ g db.groups
    → resolve_group none db g.user_sub g.alias ≡ ok g
unfolding resolve_group query clashes
resolve_group-alias db g h m =
    rw
      (find_first-Distinct clashes (named_by g.user_sub g.alias) (same_alias-clash g) db.groups
        h.groups_distinct m (names_itself g))
      refl
