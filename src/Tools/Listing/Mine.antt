-- ===== src/Tools/Listing/Mine.antt =====
-- What list_expenses lists when it is asked for the caller's own expenses.
use spliit_mcp.Prelude.{
  ℕ, zero, suc, String, ◌≡◌, ◌≢◌, sym, ◌∙◌, subst, Bool, true, false, not, ◌||◌, Option, List, [],
  ◌∷◌, ◌++◌, ◌==◌, eq_iff, ==-of_ne, All, All-append, length, eqb, Bool-cases, inl, inr, arith,
}
use spliit_mcp.Store.Rows
use spliit_mcp.Spliit.Model.{Expense, Group}
use spliit_mcp.Tools.Outcome.{done, done-pair}
use spliit_mcp.Tools.World.{Env, World}
use spliit_mcp.Tools.Sends.{continue-eq-done}
use spliit_mcp.Tools.Clients
use spliit_mcp.Tools.ExpenseForm.{me}
use spliit_mcp.Tools.Duplicates.{cursor_arg}
use spliit_mcp.Tools.Listing.{
  ListInput, Summary, Listing, clamp_limit, start_cursor, passes, summarize, scan, filter_arg,
  own_filters, named_filter, is_named, resolve_expense_filters, list_pages, list_in,
}

done-eq : (a b : Listing) → done a ≡ done b → a ≡ b
done-eq a b h = cc

done-inj : (a b : String) → done a ≡ done b → a ≡ b
done-inj a b h = cc

module _ (P : Summary → Type 0) (limit : ℕ) (test : Expense → Bool) (shown : Expense → Summary)
    (good : (e : Expense) → test e ≡ true → P (shown e)) where
  -- Whatever passes has the property, so the page's list keeps it.
  All-scan :
      (out : List Summary) (es : List Expense) → All P out → All P (scan limit test shown out es)
  unfolding scan
  All-scan out [] a = a
  All-scan out (e ∷ es) a = elim (Bool-cases (test e)) [
    | inl hit ↦
        let longer = All-append P out (shown e ∷ []) a (good e hit, tt) in
        rw hit (elim (Bool-cases (eqb (length (out ++ shown e ∷ [])) limit)) [
          | inl full ↦ rw full longer
          | inr room ↦ rw room (All-scan (out ++ shown e ∷ []) es longer)
        ])
    | inr miss ↦ rw miss (All-scan out es a)
  ]

module _ {D : Type 0} (env : Env D) (row : Rows.Group) where
  abbrev shown : Expense → Summary
  shown e = summarize env.dec e row.participant_id

  -- What every expense that passes shows, every listed one shows.
  All-list_pages :
      (P : Summary → Type 0) (limit : ℕ) (filter : Option String) (test : Expense → Bool)
      → ((e : Expense) → test e ≡ true → P (shown e))
      → (n c : ℕ) (w : World) (out result : Listing) → All P out.expenses
      → (list_pages env row limit filter test n c out w).0 ≡ done result
      → All P result.expenses
  unfolding list_pages
  All-list_pages P limit filter test good zero c w out result a h =
      let e : out ≡ result = ground arith in subst (λ (l : Listing). All P l.expenses) e a
  All-list_pages P limit filter test good (suc n) c w out result a h =
      let (page, e1, h1, _) =
        continue-eq-done
          (Clients.list_expenses env row.base_url row.spliit_group_id limit (cursor_arg c) filter w)
          _ h in
      let found : Listing = record {
        expenses = scan limit test shown out.expenses page.expenses;
        has_more = page.has_more;
        next_cursor = page.next_cursor;
      } in
      let b = All-scan P limit test shown good out.expenses page.expenses a in
      elim (Bool-cases (eqb (length found.expenses) limit || not page.has_more)) [
        | inl last ↦
            let e : found ≡ result = done-eq found result (rw last at h1) in
            subst (λ (l : Listing). All P l.expenses) e b
        | inr more ↦
            All-list_pages P limit filter test good n page.next_cursor _ found result b
              (rw more at h1)
      ]

  named_filter-set :
      (group : Group) (name id out : String)
      → id ≢ ""
      → named_filter env group name id ≡ done out
      → out ≡ id
  unfolding named_filter
  named_filter-set group name id out set h = elim (Bool-cases (name == "")) [
    | inl absent ↦ sym (done-inj id out (rw absent at h))
    | inr given ↦ sym (done-inj id out (rw (given, ==-of_ne id "" set) at h))
  ]

  own_filters-mine :
      (input : ListInput) (a b : String)
      → input.mine ≡ true
      → own_filters env row input ≡ done (a, b)
      → (a ≡ row.participant_id) × (a ≢ "")
  unfolding own_filters me
  own_filters-mine input a b mine h = elim (Bool-cases (row.participant_id == "")) [
    | inl empty ↦ cc (rw (mine, empty) at h)
    | inr pinned ↦
        let (e, _) = done-pair row.participant_id a _ b (rw (mine, pinned) at h) in
        (sym e, λ none. ground (arith, eq_iff row.participant_id ""))
  ]

  -- With `mine`, the payer's filter is the pinned participant.
  mine-filter :
      (input : ListInput) (w : World) (payer involved : String)
      → input.mine ≡ true
      → (resolve_expense_filters env row input w).0 ≡ done (payer, involved)
      → (payer ≡ row.participant_id) × (payer ≢ "")
  unfolding resolve_expense_filters
  mine-filter input w payer involved mine h =
      let ((a, b), own, h1, _) = continue-eq-done (own_filters env row input, w) _ h in
      let (same, set) = own_filters-mine input a b mine own in
      elim (Bool-cases (is_named input.paid_by a || is_named input.involving b)) [
        | inr unnamed ↦
            let (e, _) = done-pair a payer b involved (rw unnamed at h1) in
            (sym e ∙ same, λ none. set (e ∙ none))
        | inl named ↦
            let (group, g1, h2, _) =
              continue-eq-done (Clients.get_group env row.base_url row.spliit_group_id w) _
                (rw named at h1) in
            let (payer', f1, h3, _) =
              continue-eq-done (named_filter env group input.paid_by a, _) _ h2 in
            let (involved', f2, h4, _) =
              continue-eq-done (named_filter env group input.involving b, _) _ h3 in
            let (e, _) = done-pair payer' payer involved' involved h4 in
            let kept = named_filter-set group input.paid_by a payer' set f1 in
            (sym e ∙ kept ∙ same, λ none. set (sym kept ∙ e ∙ none))
      ]

  passes-payer :
      (payer involved : String) (e : Expense)
      → payer ≢ ""
      → payer ≡ row.participant_id
      → passes payer involved e ≡ true
      → (shown e).paid_by_me ≡ true
  unfolding passes summarize
  passes-payer payer involved e set same h = ground (
    arith,
    eq_iff payer "",
    eq_iff row.participant_id "",
    eq_iff e.paid_by_id payer,
    eq_iff e.paid_by_id row.participant_id,
  )

  -- Where list_expenses is asked for the caller's own expenses and succeeds, the caller paid every
  -- expense that it lists, on whatever pages they were.
  pub list_in-mine :
      (input : ListInput) (w : World) (out : Listing)
      → input.mine ≡ true
      → (list_in env input row w).0 ≡ done out
      → All (λ (s : Summary). s.paid_by_me ≡ true) out.expenses
  unfolding list_in
  list_in-mine input w out mine h =
      let ((payer, involved), e1, h1, _) =
        continue-eq-done (resolve_expense_filters env row input w) _ h in
      let (same, set) = mine-filter input w payer involved mine e1 in
      All-list_pages _ (clamp_limit input.limit) (filter_arg input.filter) (passes payer involved)
        (λ e. passes-payer payer involved e set same) 10 (start_cursor input.cursor) _
        (record { expenses = []; has_more = false; next_cursor = 0 }) out tt h1
