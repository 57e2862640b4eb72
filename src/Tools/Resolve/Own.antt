-- ===== src/Tools/Resolve/Own.antt =====
-- What `resolve` returns: a row of the caller's own, found without a call to an instance.
use mathlib.Core.List.{Memᴰ}
use spliit_mcp.Prelude.{
  String, ◌≡◌, true, List, [], ◌∷◌, Option, none, some, any, ◌==◌, eq_iff, ◌&&◌, find_first,
  find_first-mem, find_first-passes, arith, Bool-cases, inl, inr,
}
use spliit_mcp.Text.{is_blank}
use spliit_mcp.Store.Rows
use spliit_mcp.Store.Rows.{Db, Result, ok, err, not_found, conflict, driver}
use spliit_mcp.Store.Users.{default_group, default_test, is_default_of}
use spliit_mcp.Store.Sql.{query, one_row}
use spliit_mcp.Store.Groups.{resolve_group}
use spliit_mcp.Store.Scope.{resolve_group-own}
use spliit_mcp.Tools.Outcome.{Failure, done, no_default_group, no_such_group}
use spliit_mcp.Tools.World.{Call, Env, World, read}
use spliit_mcp.Tools.Sends.{Guarded, bind-Guarded, lift-Guarded, read-Guarded}
use spliit_mcp.Tools.Resolve.{user_from_request, found_row, resolve}

-- The default group is listed and the user's own.
default_test-own :
    (sub : String) (us : List Rows.User) (g : Rows.Group)
    → default_test sub us g ≡ true
    → g.user_sub ≡ sub
unfolding any
default_test-own sub [] g h = cc
default_test-own sub (u ∷ us) g h = elim (Bool-cases (is_default_of g u && u.sub == sub)) [
  | inl this ↦ ground (arith, eq_iff u.sub sub, eq_iff u.sub g.user_sub)
  | inr other ↦ default_test-own sub us g (rw other at h)
]

abbrev pub IsListed : Db → String → Rows.Group → Type 0
IsListed db sub g = Memᴰ g db.groups × (g.user_sub ≡ sub)

one_row-ok : {A : Type 0} (o : Option A) (a : A) → one_row o ≡ ok a → o ≡ some a
one_row-ok none a h = cc
one_row-ok (some b) a h = cc

default_group-IsListed :
    (fault : Option String) (db : Db) (sub : String) (g : Rows.Group)
    → default_group fault db sub ≡ ok g
    → IsListed db sub g
unfolding default_group query
default_group-IsListed (some msg) db sub g h = cc
default_group-IsListed none db sub g h =
    let found = one_row-ok (find_first (default_test sub db.users) db.groups) g h in
    (
      find_first-mem (default_test sub db.users) db.groups g found,
      default_test-own sub db.users g
          (find_first-passes (default_test sub db.users) db.groups g found),
    )

found_row-done :
    (missing : Failure) (r : Result Rows.Group) (g : Rows.Group)
    → found_row missing r ≡ done g
    → r ≡ ok g
found_row-done missing (ok k) g h = cc
found_row-done missing (err not_found) g h = cc
found_row-done missing (err (conflict op)) g h = cc
found_row-done missing (err (driver op msg)) g h = cc

pub user_from_request-done :
    (who : Option String) (sub : String) → user_from_request who ≡ done sub → who ≡ some sub
unfolding user_from_request
user_from_request-done none sub h = cc
user_from_request-done (some s) sub h = elim (Bool-cases (s == "")) [
  | inl empty ↦ cc (rw empty at h)
  | inr named ↦ cc (rw named at h)
]

module _ {D : Type 0} (env : Env D) where
  pub resolve-Guarded : (Q : Call → Type 0) (sub ref : String) → Guarded Q (resolve env sub ref)
  unfolding resolve
  resolve-Guarded Q sub ref = elim (Bool-cases (is_blank ref)) [
    | inl blank ↦ rw blank (
        bind-Guarded Q _ _ (read-Guarded Q env (λ fault db. default_group fault db sub))
          (λ r. lift-Guarded Q (found_row no_default_group r)))
    | inr given ↦ rw given (
        bind-Guarded Q _ _ (read-Guarded Q env (λ fault db. resolve_group fault db sub ref))
          (λ r. lift-Guarded Q (found_row (no_such_group ref) r)))
  ]

  -- What `resolve` returns is a row of the caller's own.
  pub resolve-IsListed :
      (sub ref : String) (w : World) (g : Rows.Group)
      → (resolve env sub ref w).0 ≡ done g
      → IsListed w.db sub g
  unfolding resolve read
  resolve-IsListed sub ref w g h = elim (Bool-cases (is_blank ref)) [
    | inl blank ↦
        default_group-IsListed (env.fault w.ticks) w.db sub g
          (found_row-done no_default_group _ g (rw blank at h))
    | inr given ↦
        let (m, own, _) =
          resolve_group-own (env.fault w.ticks) w.db sub ref g
            (found_row-done (no_such_group ref) _ g (rw given at h)) in
        (m, own)
  ]
