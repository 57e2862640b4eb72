-- ===== src/Tools/Sends.antt =====
-- Which calls a step sends to the Spliit instances, and that the steps of a handler add up.
use mathlib.Core.List.{append_assoc, append-nil}
use spliit_mcp.Prelude.{
  String, Bool, true, false, if◌then◌else◌, ◌≡◌, refl, sym, ap, ◌∙◌, Option, List, [], ◌∷◌, ◌++◌,
  All, All-append,
}
use spliit_mcp.Store.Rows.{Db, Result}
use spliit_mcp.Tools.Outcome.{Outcome, done, fail}
use spliit_mcp.Tools.World.{
  Call, Answer, Env, World, Action, continue, ◌>>=◌, pure, lift, read, send, now,
}

-- From one world to another, only calls with the property were sent, and the tables are the same.
pub record Sends (Q : Call → Type 0) (w w' : World) : Type 0 where
  pub new : List Call
  pub extends : w'.sent ≡ w.sent ++ new
  pub allowed : All Q new
  pub same_db : w'.db ≡ w.db

-- Whatever the world, the step sends only calls with the property, and writes no table.
pub record Guarded {A : Type 0} (Q : Call → Type 0) (m : Action A) : Type 0 where
  pub from : (w : World) → Sends Q w (m w).1

module _ (Q : Call → Type 0) where
  pub Sends-refl : (w w' : World) → w'.sent ≡ w.sent → w'.db ≡ w.db → Sends Q w w'
  Sends-refl w w' s d = record {
    new = [];
    extends = s ∙ sym (append-nil w.sent);
    allowed = tt;
    same_db = d;
  }

  pub Sends-trans : {u v w : World} → Sends Q u v → Sends Q v w → Sends Q u w
  Sends-trans {u} s t = record {
    new = s.new ++ t.new;
    extends = t.extends ∙ ap (λ l. l ++ t.new) s.extends ∙ append_assoc u.sent s.new t.new;
    allowed = All-append Q s.new t.new s.allowed t.allowed;
    same_db = t.same_db ∙ s.same_db;
  }

  All-weaken :
      (R : Call → Type 0) → ((c : Call) → Q c → R c) → (cs : List Call) → All Q cs → All R cs
  All-weaken R f [] a = tt
  All-weaken R f (c ∷ cs) a = (f c a.0, All-weaken R f cs a.1)

  pub Sends-weaken :
      (R : Call → Type 0) → ((c : Call) → Q c → R c) → {w v : World} → Sends Q w v → Sends R w v
  Sends-weaken R f s = record {
    new = s.new;
    extends = s.extends;
    allowed = All-weaken R f s.new s.allowed;
    same_db = s.same_db;
  }

  pub continue-Sends :
      {A B : Type 0} (w : World) (r : Outcome A × World) (f : A → Action B)
      → Sends Q w r.1
      → ((a : A) → Guarded Q (f a))
      → Sends Q w (continue r f).1
  continue-Sends w (done a, v) f s g = Sends-trans s ((g a).from v)
  continue-Sends w (fail x, v) f s g = s

  pub bind-Guarded :
      {A B : Type 0} (m : Action A) (f : A → Action B)
      → Guarded Q m
      → ((a : A) → Guarded Q (f a))
      → Guarded Q (m >>= f)
  bind-Guarded m f h g = record { from = λ w. continue-Sends w (m w) f (h.from w) g }

  pub pure-Guarded : {A : Type 0} (a : A) → Guarded Q (pure a)
  pure-Guarded a = record { from = λ w. Sends-refl w w refl refl }

  pub lift-Guarded : {A : Type 0} (r : Outcome A) → Guarded Q (lift r)
  lift-Guarded r = record { from = λ w. Sends-refl w w refl refl }

  pub if-Guarded :
      {A : Type 0} (b : Bool) (m n : Action A)
      → Guarded Q m
      → Guarded Q n
      → Guarded Q (if b then m else n)
  if-Guarded true m n h k = h
  if-Guarded false m n h k = k

  module _ {D : Type 0} (env : Env D) where
    pub read-Guarded : {A : Type 0} (f : Option String → Db → Result A) → Guarded Q (read env f)
    unfolding read
    read-Guarded f = record { from = λ w. Sends-refl w _ refl refl }

    pub now-Guarded : Guarded Q (now env)
    unfolding now
    now-Guarded = record { from = λ w. Sends-refl w _ refl refl }

    pub send-Guarded :
        {A : Type 0} (f : List Call → Call → Answer A) (c : Call) → Q c → Guarded Q (send env f c)
    unfolding send
    send-Guarded f c q = record {
      from = λ w. record { new = c ∷ []; extends = refl; allowed = (q, tt); same_db = refl };
    }

-- What a chain of actions that succeeded went through.
pub continue-eq-done :
    {A B : Type 0} (r : Outcome A × World) (f : A → Action B) {b : B}
    → (continue r f).0 ≡ done b
    → (a : A) × (r.0 ≡ done a) × ((f a r.1).0 ≡ done b) × (continue r f ≡ f a r.1)
continue-eq-done (done a, w) f h = (a, refl, h, refl)
continue-eq-done (fail x, w) f h = cc
