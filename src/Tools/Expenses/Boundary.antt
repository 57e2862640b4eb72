-- ===== src/Tools/Expenses/Boundary.antt =====
-- The authorization boundary of the expense tools: which groups they reach.
use mathlib.Core.List.{Memᴰ}
use spliit_mcp.Prelude.{String, ◌≡◌, refl, sym, ap, ◌∙◌, Option, some}
use spliit_mcp.Store.Rows
use spliit_mcp.Store.Rows.{Db, Result, ok, err, not_found, conflict, driver}
use spliit_mcp.Tools.Outcome.{Outcome, done, fail}
use spliit_mcp.Tools.World.{Call, Env, World, Action, continue, ◌>>=◌}
use spliit_mcp.Tools.Sends.{Sends, Guarded, Sends-refl, Sends-trans, Sends-weaken}
use spliit_mcp.Tools.Resolve.{user_from_request, resolve}
use spliit_mcp.Tools.ExpenseForm.{WriteInput, UpdateInput}
use spliit_mcp.Tools.Expenses
use spliit_mcp.Tools.Expenses.{
  noted, check_duplicates, build, create_in, update_in, delete_in, in_group, output,
}
use spliit_mcp.Tools.Resolve.Own.{
  IsListed, user_from_request-done, resolve-Guarded, resolve-IsListed,
}
use spliit_mcp.Tools.Expenses.Guarded.{
  IsFor, create_in-Guarded, update_in-Guarded, delete_in-Guarded,
}

-- The call is for a group that the caller has registered.
abbrev pub IsOwn : Option String → Db → Call → Type 0
IsOwn who db c = (row : Rows.Group) × Memᴰ row db.groups × (who ≡ some row.user_sub) × IsFor row c

-- The call stands in a relation to a group that the caller has registered.
abbrev pub ForOwn : (Rows.Group → Call → Type 0) → Option String → Db → Call → Type 0
ForOwn For who db c =
    (row : Rows.Group) × Memᴰ row db.groups × (who ≡ some row.user_sub) × For row c

module _ {D : Type 0} (env : Env D) (For : Rows.Group → Call → Type 0) where
  module _ {A : Type 0} (who : Option String) (run : Rows.Group → Action A)
      (guarded : (row : Rows.Group) → Guarded (For row) (run row)) where
    run-Sends :
        (w : World) (sub : String) (r : Outcome Rows.Group × World)
        → who ≡ some sub
        → Sends (ForOwn For who w.db) w r.1
        → ((g : Rows.Group) → r.0 ≡ done g → IsListed w.db sub g)
        → Sends (ForOwn For who w.db) w (continue r run).1
    run-Sends w sub (fail x, v) named s own = s
    run-Sends w sub (done g, v) named s own =
        let (m, mine) = own g refl in
        Sends-trans (ForOwn For who w.db) s (
          Sends-weaken (For g) (ForOwn For who w.db) (λ c q. (g, m, named ∙ ap some (sym mine), q))
            ((guarded g).from v))

    user-Sends :
        (w : World) (ref : String) (u : Outcome String)
        → user_from_request who ≡ u
        → Sends (ForOwn For who w.db) w (continue (u, w) (λ sub. resolve env sub ref >>= run)).1
    user-Sends w ref (fail x) e = Sends-refl (ForOwn For who w.db) w w refl refl
    user-Sends w ref (done sub) e =
        run-Sends w sub (resolve env sub ref w) (user_from_request-done who sub e)
          ((resolve-Guarded env (ForOwn For who w.db) sub ref).from w)
          (resolve-IsListed env sub ref w)

    pub in_group-Sends :
        (w : World) (ref : String) → Sends (ForOwn For who w.db) w (in_group env who ref run w).1
    in_group-Sends w ref = user-Sends w ref (user_from_request who) refl

-- A call of one of the three tools that write expenses.
pub data ExpenseCall : Type 0 where
  create : WriteInput → ExpenseCall
  update : UpdateInput → ExpenseCall
  delete : String → String → ExpenseCall

-- The world that the call leaves.
unfoldable pub after : {D : Type 0} → Env D → Option String → ExpenseCall → World → World
after env who (create input) w = (Expenses.create_expense env who input w).1
after env who (update input) w = (Expenses.update_expense env who input w).1
after env who (delete ref id) w = (Expenses.delete_expense env who ref id w).1

-- Whatever the tools that create, update and delete expenses are called with, whoever calls and
-- wherever they fail, every call that they send to a Spliit instance is for a group that the caller
-- has registered, at the instance that is registered with it, and no table is written. A caller
-- without an identity sends nothing.
pub after-Sends :
    {D : Type 0} (env : Env D) (who : Option String) (call : ExpenseCall) (w : World)
    → Sends (IsOwn who w.db) w (after env who call w)
unfolding after Expenses.create_expense Expenses.update_expense Expenses.delete_expense
after-Sends env who (create input) w =
    in_group-Sends env IsFor who (create_in env input) (λ row. create_in-Guarded env row input) w
      input.group
after-Sends env who (update input) w =
    in_group-Sends env IsFor who (update_in env input) (λ row. update_in-Guarded env row input) w
      input.group
after-Sends env who (delete ref id) w =
    in_group-Sends env IsFor who (delete_in env id) (λ row. delete_in-Guarded env row id) w ref
