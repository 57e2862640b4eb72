-- ===== src/Tools/Expenses/Recorded.antt =====
-- What create_expense records.
use spliit_mcp.Prelude.{
  ◌≡◌, refl, ap, subst, ◌∙◌, Bool, true, false, Option, none, some, List, [], ◌∷◌, ◌++◌, keep, take,
}
use spliit_mcp.Store.Rows
use spliit_mcp.Spliit.Model.{Expense, ExpenseForm}
use spliit_mcp.Tools.Outcome.{Outcome, Failure, done, fail}
use spliit_mcp.Tools.World
use spliit_mcp.Tools.World.{Call, Env, World, Action, continue, ◌>>=◌, pure, send}
use spliit_mcp.Tools.Sends.{continue-eq-done}
use spliit_mcp.Tools.Clients
use spliit_mcp.Tools.Clients.{to_group}
use spliit_mcp.Tools.Duplicates.{matches, likely_duplicates}
use spliit_mcp.Tools.Duplicates.Complete.{NewestFirst, Serves, likely_duplicates_complete}
use spliit_mcp.Tools.ExpenseForm.{WriteInput, participant_or_nil}
use spliit_mcp.Tools.Expenses.{ExpenseOutput, output, noted, check_duplicates, build, create_in}

done-note :
    {A : Type 0} (a : A) (note : Option Failure) (out : A × Option Failure)
    → done (a, note) ≡ done out
    → note ≡ out.1
done-note a said out h = cc

module _ {D : Type 0} (env : Env D) (row : Rows.Group) where
  -- The call that records an expense.
  abbrev pub recording : ExpenseForm → Call
  recording form =
      to_group env row.base_url row.spliit_group_id
        (World.create_expense (env.api.with_defaults form) (participant_or_nil row.participant_id))

  -- How the duplicate check of a form let it through: it was not asked for, it found nothing, or it
  -- failed, and then the note tells why.
  pub data Passed (form : ExpenseForm) (mid : World) : Bool → Option Failure → Type 0 where
    allowed : Passed form mid true none
    clean : (likely_duplicates env row form mid).0 ≡ done [] → Passed form mid false none
    unchecked :
        (x : Failure)
        → (likely_duplicates env row form mid).0 ≡ fail x
        → Passed form mid false (some x)

  noted-Passed :
      (form : ExpenseForm) (mid : World) (r : Outcome (List Expense) × World)
      → likely_duplicates env row form mid ≡ r
      → (note : Option Failure) → (noted r).0 ≡ done note
      → Passed form mid false note
  noted-Passed form mid (done [], w) e said h =
      let same : none ≡ said = cc h in
      subst (Passed form mid false) same (Passed.clean (ap (λ x. x.0) e))
  noted-Passed form mid (done (x ∷ xs), w) e said h = cc
  noted-Passed form mid (fail x, w) e said h =
      let same : some x ≡ said = cc h in
      subst (Passed form mid false) same (Passed.unchecked x (ap (λ x. x.0) e))

  check_duplicates-Passed :
      (form : ExpenseForm) (mid : World) (b : Bool) (note : Option Failure)
      → (check_duplicates env b row form mid).0 ≡ done note
      → Passed form mid b note
  unfolding check_duplicates
  check_duplicates-Passed form mid true said h =
      let same : none ≡ said = cc h in subst (Passed form mid true) same Passed.allowed
  check_duplicates-Passed form mid false said h =
      noted-Passed form mid (likely_duplicates env row form mid) refl said h

  -- An expense that create_expense reports as recorded was sent, as the last call, and its form came
  -- through the duplicate check: the caller allowed duplicates, or the search found none, or the
  -- search failed and the output's note is its failure. There is a note in no other case.
  pub create_in-Passed :
      (input : WriteInput) (w : World) (out : ExpenseOutput × Option Failure)
      → (create_in env input row w).0 ≡ done out
      → (form : ExpenseForm) × (mid : World) × (before : List Call) × ((create_in env input row
            w).1.sent
          ≡ before ++ recording form ∷ [])
        × Passed form mid input.allow_duplicate out.1
  unfolding create_in Clients.create_expense send
  create_in-Passed input w out h =
      let (group, e1, h1, q1) =
        continue-eq-done (Clients.get_group env row.base_url row.spliit_group_id w) _ h in
      let ((form, names), e2, h2, q2) = continue-eq-done (build env input group row _) _ h1 in
      let (note, e3, h3, q3) =
        continue-eq-done (check_duplicates env input.allow_duplicate row form _) _ h2 in
      let (id, e4, h4, q4) =
        continue-eq-done
          (Clients.create_expense env row.base_url row.spliit_group_id form
            (participant_or_nil row.participant_id) _)
          _ h3 in
      (
        form,
        _,
        _,
        ap (λ (r : Outcome (ExpenseOutput × Option Failure) × World). r.1.sent) (q1 ∙ q2 ∙ q3 ∙ q4),
        subst (Passed form _ input.allow_duplicate)
            (done-note (output env id row form names) note out h4)
            (check_duplicates-Passed form _ input.allow_duplicate note e3),
      )

  Passed-none :
      (form : ExpenseForm) (es : List Expense) (mid : World) (b : Bool) {note : Option Failure}
      → Passed form mid b note
      → b ≡ false
      → Serves env row es
      → NewestFirst es
      → keep (matches form) (take 500 es) ≡ []
  Passed-none form es mid true Passed.allowed off serves sorted = cc
  Passed-none form es mid false (Passed.clean e) off serves sorted =
      let found = likely_duplicates_complete env row form es mid serves sorted in cc
  Passed-none form es mid false (Passed.unchecked x e) off serves sorted =
      let found = likely_duplicates_complete env row form es mid serves sorted in cc

  -- Where the instance serves the group's expenses in pages, newest first, and the caller has not
  -- allowed duplicates, an expense that create_expense reports as recorded is the last call sent, and
  -- none of the newest 500 expenses has its amount and is dated at most two days away from it.
  pub create_in-no_duplicate :
      (input : WriteInput) (es : List Expense) (w : World) (out : ExpenseOutput × Option Failure)
      → input.allow_duplicate ≡ false
      → Serves env row es
      → NewestFirst es
      → (create_in env input row w).0 ≡ done out
      → (form : ExpenseForm) × (before : List Call) × ((create_in env input row w).1.sent
          ≡ before ++ recording form ∷ [])
        × (keep (matches form) (take 500 es) ≡ [])
  create_in-no_duplicate input es w out off serves sorted h =
      let (form, mid, before, sent, passed) = create_in-Passed input w out h in
      (form, before, sent, Passed-none form es mid input.allow_duplicate passed off serves sorted)
