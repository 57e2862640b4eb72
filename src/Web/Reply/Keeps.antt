-- ===== src/Web/Reply/Keeps.antt =====
-- Handlers that keep the rows of `groups` of a user.
use spliit_mcp.Prelude.{ℕ, ◌≡◌, refl, ap, ◌∙◌, String, Option, none, some}
use spliit_mcp.Store.Rows.{StoreError, Time, Db, Result}
use spliit_mcp.Store.Scope.{groups_of}
use spliit_mcp.Tools.World.{Env, World, Action, read, write}
use spliit_mcp.Tools.Sends.{Guarded}
use spliit_mcp.Web.Reply.{
  Response, Body, Step, go, halt, Handler, and_then, ◌>>=◌, pure, answer, body_or_bad, stored,
  asked,
}

-- A handler that keeps the groups of a user `v`.
pub record Keeps (v : String) {A : Type 0} (m : Handler A) : Type 0 where
  pub from : (w : World) → groups_of v (m w).1.db ≡ groups_of v w.db

abbrev pub Any : {A : Type 0} → A → Type 0
Any a = Unit

pub pure-eq-go : {A : Type 0} (a b : A) (w : World) → (pure a w).0 ≡ go b → a ≡ b
pure-eq-go a b w h = cc h

pub then-yields :
    {A B : Type 0} (R : B → Type 0) (r : Step A × World) (f : A → Handler B)
    → ((a : A) (w : World) (b : B) → (f a w).0 ≡ go b → R b)
    → (b : B) → (and_then r f).0 ≡ go b
    → R b
then-yields R (go a, w) f k b h = k a w b h
then-yields R (halt x, w) f k b h = cc

module _ (v : String) where
  pub then-Keeps :
      {A B : Type 0} (w : World) (r : Step A × World) (f : A → Handler B)
      → groups_of v r.1.db ≡ groups_of v w.db
      → ((a : A) → r.0 ≡ go a → Keeps v (f a))
      → groups_of v (and_then r f).1.db ≡ groups_of v w.db
  then-Keeps w (go a, w') f e k = (k a refl).from w' ∙ e
  then-Keeps w (halt x, w') f e k = e

  pub bind-Keeps :
      {A B : Type 0} (m : Handler A) (f : A → Handler B)
      → Keeps v m
      → ((a : A) → Keeps v (f a))
      → Keeps v (m >>= f)
  bind-Keeps m f s k = record { from = λ w. then-Keeps w (m w) f (s.from w) (λ a e. k a) }

  pub pure-Keeps : {A : Type 0} (a : A) → Keeps v (pure a)
  pure-Keeps a = record { from = λ w. refl }

  pub answer-Keeps : {A : Type 0} (status : ℕ) (body : Body) → Keeps v (answer {A = A} status body)
  answer-Keeps status body = record { from = λ w. refl }

  pub body-Keeps : {A : Type 0} (o : Option A) → Keeps v (body_or_bad o)
  unfolding body_or_bad
  body-Keeps none = answer-Keeps 400 _
  body-Keeps (some a) = pure-Keeps a

  module _ {D : Type 0} (env : Env D) where
    -- A call to an instance.
    pub asked-Keeps :
        {A : Type 0} (message : String) (m : Action A) → Guarded Any m → Keeps v (asked message m)
    unfolding asked
    asked-Keeps message m g = record { from = λ w. ap (groups_of v) ((g.from w).same_db) }

    pub write-Keeps :
        {A : Type 0} (on_error : StoreError → Response)
        (f : Option String → Time → String → Db → Result A × Db)
        → ((fault : Option String) (now : Time) (id : String) (db : Db)
            → groups_of v (f fault now id db).1 ≡ groups_of v db)
        → Keeps v (stored on_error (write env f))
    unfolding write stored
    write-Keeps on_error f k = record {
      from = λ w. k (env.fault w.ticks) (env.clock w.ticks) (env.uuid w.ticks) w.db;
    }

    pub read-Keeps :
        {A : Type 0} (on_error : StoreError → Response) (f : Option String → Db → Result A)
        → Keeps v (stored on_error (read env f))
    unfolding read stored
    read-Keeps on_error f = record { from = λ w. refl }
