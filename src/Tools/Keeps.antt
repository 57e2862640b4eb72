-- ===== src/Tools/Keeps.antt =====
-- Actions that keep the rows of `groups` of a user.
use spliit_mcp.Prelude.{
  ◌≡◌, ◌≢◌, refl, ap, sym, ◌∙◌, String, Bool, true, false, Option, some, if◌then◌else◌,
}
use spliit_mcp.Text.{is_blank}
use spliit_mcp.Store.Rows
use spliit_mcp.Store.Rows.{Time, Db, Result}
use spliit_mcp.Store.Scope.{groups_of}
use spliit_mcp.Tools.Outcome.{Outcome, done, fail, group_required}
use spliit_mcp.Tools.World.{Env, World, Action, continue, ◌>>=◌, raise, lift, write}
use spliit_mcp.Tools.Sends.{Guarded, bind-Guarded, send-Guarded, lift-Guarded}
use spliit_mcp.Tools.Clients
use spliit_mcp.Tools.Resolve.{user_from_request, resolve, resolve_explicit}
use spliit_mcp.Tools.Resolve.Own.{user_from_request-done, resolve-Guarded, resolve-IsListed}
use spliit_mcp.Tools.Groups

-- An action that keeps the groups of a user.
pub record Keeps (v : String) {A : Type 0} (m : Action A) : Type 0 where
  pub from : (w : World) → groups_of v (m w).1.db ≡ groups_of v w.db

abbrev pub Any : {A : Type 0} → A → Type 0
Any a = Unit

module _ (v : String) where
  pub then-Keeps :
      {A B : Type 0} (w : World) (r : Outcome A × World) (f : A → Action B)
      → groups_of v r.1.db ≡ groups_of v w.db
      → ((a : A) → r.0 ≡ done a → Keeps v (f a))
      → groups_of v (continue r f).1.db ≡ groups_of v w.db
  then-Keeps w (done a, w') f e k = (k a refl).from w' ∙ e
  then-Keeps w (fail x, w') f e k = e

  pub bind-Keeps :
      {A B : Type 0} (m : Action A) (f : A → Action B)
      → Keeps v m
      → ((a : A) → Keeps v (f a))
      → Keeps v (m >>= f)
  bind-Keeps m f s k = record { from = λ w. then-Keeps w (m w) f (s.from w) (λ a e. k a) }

  pub if-Keeps :
      {A : Type 0} (b : Bool) (m n : Action A)
      → Keeps v m
      → Keeps v n
      → Keeps v (if b then m else n)
  if-Keeps true m n h k = h
  if-Keeps false m n h k = k

  pub lift-Keeps : {A : Type 0} (r : Outcome A) → Keeps v (lift r)
  lift-Keeps r = record { from = λ w. refl }

  pub Guarded-Keeps : {A : Type 0} (m : Action A) → Guarded Any m → Keeps v m
  Guarded-Keeps m g = record { from = λ w. ap (groups_of v) ((g.from w).same_db) }

  module _ {D : Type 0} (env : Env D) where
    pub get_group-Keeps : (base_url id : String) → Keeps v (Clients.get_group env base_url id)
    unfolding Clients.get_group
    get_group-Keeps base_url id =
        Guarded-Keeps (Clients.get_group env base_url id)
          (bind-Guarded Any _ _ (send-Guarded Any env env.api.group _ tt) (λ o. lift-Guarded Any _))

    pub store_write-Keeps :
        {A : Type 0} (f : Option String → Time → String → Db → Result A × Db)
        → ((fault : Option String) (now : Time) (id : String) (db : Db)
            → groups_of v (f fault now id db).1 ≡ groups_of v db)
        → Keeps v (Groups.store_write env f)
    unfolding write
    store_write-Keeps f k = record {
      from = λ w. k (env.fault w.ticks) (env.clock w.ticks) (env.uuid w.ticks) w.db;
    }

    unless_blank-own :
        (b : Bool) (sub ref : String) (w : World) (g : Rows.Group)
        → ((if b then raise group_required else resolve env sub ref) w).0 ≡ done g
        → g.user_sub ≡ sub
    unless_blank-own true sub ref w g h = cc
    unless_blank-own false sub ref w g h = (resolve-IsListed env sub ref w g h).1

    resolve_explicit-own :
        (sub ref : String) (w : World) (g : Rows.Group)
        → (resolve_explicit env sub ref w).0 ≡ done g
        → g.user_sub ≡ sub
    unfolding resolve_explicit
    resolve_explicit-own sub ref w g h = unless_blank-own (is_blank ref) sub ref w g h

    pub resolve_explicit-Keeps : (sub ref : String) → Keeps v (resolve_explicit env sub ref)
    unfolding resolve_explicit
    resolve_explicit-Keeps sub ref =
        if-Keeps (is_blank ref) _ _ (lift-Keeps (fail group_required))
          (Guarded-Keeps (resolve env sub ref) (resolve-Guarded env Any sub ref))

    -- A tool of the caller's row.
    pub for_row :
        {A : Type 0} (who : Option String) (ref : String) (k : String → Rows.Group → Action A)
        → who ≢ some v
        → ((sub : String) (row : Rows.Group) → v ≢ sub → row.user_sub ≡ sub → Keeps v (k sub row))
        → Keeps v (lift (user_from_request who) >>= λ sub. resolve_explicit env sub ref >>= k sub)
    for_row who ref k other keep = record {
      from = λ w.
          then-Keeps w (user_from_request who, w) _ refl
            (λ sub e. record {
              from = λ w2.
                  then-Keeps w2 (resolve_explicit env sub ref w2) (k sub)
                    ((resolve_explicit-Keeps sub ref).from w2)
                    (λ row e'.
                      keep sub row
                        (λ same. other (user_from_request-done who sub e ∙ ap some (sym same)))
                        (resolve_explicit-own sub ref w2 row e'));
            });
    }
