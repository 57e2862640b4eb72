-- ===== src/Web/Reply/Steps.antt =====
-- What the steps of a handler that went on went through, and what they keep of the world.
use spliit_mcp.Prelude.{String, ◌≡◌, refl, Option, none, some}
use spliit_mcp.Store.Rows.{Result, StoreError, ok, err}
use spliit_mcp.Store.Sql.{query, one_row}
use spliit_mcp.Tools.Outcome.{done}
use spliit_mcp.Tools.World.{World}
use spliit_mcp.Web.Reply.{Response, Step, go, halt, and_then, of_stored}

module _ {ℓ κ} {A : Type ℓ} {B : Type κ} where
  pub and_then-eq-go :
      (r : Step A × World) (f : A → World → Step B × World) {b : B}
      → (and_then r f).0 ≡ go b
      → (a : A) × (r ≡ (go a, r.1)) × ((f a r.1).0 ≡ go b)
  and_then-eq-go (go a, w) f h = (a, refl, h)
  and_then-eq-go (halt x, w) f h = cc

  -- What holds of the world after a step, and after what follows a step that went on, holds at the
  -- end.
  pub and_then-keeps :
      (P : World → Type 0) (r : Step A × World) (f : A → World → Step B × World)
      → P r.1
      → ((a : A) → r.0 ≡ go a → P (f a r.1).1)
      → P (and_then r f).1
  and_then-keeps P (go a, w) f h k = k a refl
  and_then-keeps P (halt x, w) f h k = h

pub of_stored-eq-go :
    {A : Type 0} (f : StoreError → Response) (r : Result A) {a : A}
    → of_stored f (done r) ≡ go a
    → r ≡ ok a
of_stored-eq-go f (ok b) h = cc
of_stored-eq-go f (err x) h = cc

pub query-eq-ok :
    {A : Type 0} (fault : Option String) (op : String) (o : Option A) {a : A}
    → query fault op (one_row o) ≡ ok a
    → (o ≡ some a) × (fault ≡ none)
unfolding query
query-eq-ok none op (some b) h = (cc, refl)
query-eq-ok none op none h = cc
query-eq-ok (some msg) op o h = cc
