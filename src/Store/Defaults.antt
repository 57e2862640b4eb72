-- ===== src/Store/Defaults.antt =====
-- The default group: setting it is read back.
use mathlib.Core.List.{Memᴰ}
use mathlib.Core.Path.{ap₂}
use spliit_mcp.Prelude.{
  String, ◌≡◌, ◌≢◌, refl, ◌∙◌, Bool, true, false, List, [], ◌∷◌, Option, none, some, arith, eq_iff,
  eq_refl, ◌==◌, ◌&&◌, ◌||◌, any, any-of-mem, keep, is_some, Bool-cases, inl, inr, if◌then◌else◌,
  ==-of_ne, and_true, and_false, find_first,
}
use spliit_mcp.Store.Rows.{Time, User, Group, Db, ok}
use spliit_mcp.Store.Sql.{Engine, exec, require_affected}
use spliit_mcp.Store.Users.{
  find_user, update_users, users_matching, update_user_row, owns_group, set_default_group,
  is_default_of, default_test, default_group,
}
use spliit_mcp.Store.Groups.{clashes}
use spliit_mcp.Store.Consistent.{IsConsistent, find_first-Distinct}

join_step :
    (s : Bool) (u : User) (o : Option User) (a b : Bool)
    → ((s && (a && b)) || ((is_some o && a) && b)) ≡ ((is_some (if s then some u else o) && a) && b)
join_step true u o a b = ground arith
join_step false u o a b = refl

module _ (now : Time) (sub id : String) where
  abbrev point : User → User
  point u = record u { default_group_id = some id; updated_at = now }

  join_known :
      (s t : String) (a : Bool) → (s == sub) ≡ true → ((a && s == t) && s == sub) ≡ (a && sub == t)
  join_known s t a h = rw ((eq_iff s sub).0 h) (rw eq_refl (and_true (a && sub == t)))

  head_point :
      (g : Group) (u : User)
      → (is_default_of g (if u.sub == sub then point u else u)
          && (if u.sub == sub then point u else u).sub == sub)
        ≡ (u.sub == sub && (id == g.id && sub == g.user_sub))
  head_point g u = elim (Bool-cases (u.sub == sub)) [
    | inl same ↦ rw same (join_known u.sub g.user_sub (id == g.id) same)
    | inr other ↦ rw (other, other) (and_false (is_default_of g u))
  ]

  -- After the update the join finds the rows of `id` that are the user's own.
  default_test-point :
      (g : Group) (us : List User)
      → default_test sub (update_users point sub us) g
        ≡ ((is_some (find_user sub us) && id == g.id) && sub == g.user_sub)
  unfolding any update_users find_user find_first
  default_test-point g [] = refl
  default_test-point g (u ∷ us) =
      ap₂ ◌||◌ (head_point g u) (default_test-point g us)
      ∙ join_step (u.sub == sub) u (find_user sub us) (id == g.id) (sub == g.user_sub)

  same_row-clash :
      (us : List User) (g h : Group)
      → default_test sub (update_users point sub us) g ≡ true
      → default_test sub (update_users point sub us) h ≡ true
      → clashes g h ≡ true
  unfolding clashes
  same_row-clash us g h p q =
      let p' = rw default_test-point at p in
      let q' = rw default_test-point at q in
      ground (arith, eq_iff id g.id, eq_iff id h.id, eq_iff g.id h.id)

owns-of-mem : (g : Group) (gs : List Group) → Memᴰ g gs → owns_group g.user_sub g.id gs ≡ true
unfolding owns_group
owns-of-mem g gs m =
    any-of-mem (λ (h : Group). h.id == g.id && h.user_sub == g.user_sub) m
      (rw (eq_refl, eq_refl) refl)

users_matching-suc :
    (sub : String) (us : List User)
    → is_some (find_user sub us) ≡ true
    → require_affected (some (users_matching sub us)) ≡ ok tt
unfolding require_affected users_matching keep find_user find_first
users_matching-suc sub [] h = cc
users_matching-suc sub (u ∷ us) h = ground (arith, users_matching-suc sub us)

row_was_met :
    (e : Engine) (sub : String) (us : List User)
    → is_some (find_user sub us) ≡ true
    → require_affected (if e.reports_rows then some (users_matching sub us) else none) ≡ ok tt
unfolding require_affected
row_was_met e sub us h = elim (Bool-cases e.reports_rows) [
  | inl counts ↦ rw counts (users_matching-suc sub us h)
  | inr silent ↦ rw silent refl
]

-- In well-formed tables, making one of the user's groups the default succeeds when no statement
-- fails, and the default group that is read afterwards is that row, whoever else has a default.
pub default_group-set_default_group :
    (e : Engine) (now : Time) (db : Db) (g : Group)
    → IsConsistent db
    → Memᴰ g db.groups
    → g.id ≢ ""
    → is_some (find_user g.user_sub db.users) ≡ true
    → ((set_default_group e none now g.user_sub g.id db).0 ≡ ok tt)
      × (default_group none (set_default_group e none now g.user_sub g.id db).1 g.user_sub ≡ ok g)
unfolding set_default_group default_group update_user_row
default_group-set_default_group e now db g h m named known =
    rw (==-of_ne g.id "" named, owns-of-mem g db.groups m, exec)
      (
        row_was_met e g.user_sub db.users known,
        rw
            (find_first-Distinct clashes
              (default_test g.user_sub
                (update_users (point now g.user_sub g.id) g.user_sub db.users))
              (same_row-clash now g.user_sub g.id db.users) db.groups h.groups_distinct m
              (rw (default_test-point now g.user_sub g.id g db.users, known, eq_refl, eq_refl)
                refl))
            refl,
      )
