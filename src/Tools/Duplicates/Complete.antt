-- ===== src/Tools/Duplicates/Complete.antt =====
-- The duplicate check against an instance that lists a group's expenses newest first.
use mathlib.Core.List.{append-nil}
use spliit_mcp.Prelude.{
  ℕ, zero, suc, ◌+◌, ◌*◌, ◌≤◌, ◌≡◌, refl, sym, ap, ◌∙◌, subst, true, false, none, List, [], ◌∷◌,
  ◌++◌, ltb, any, keep, keep-append, length, take, drop, All, Bool-cases, inl, inr, arith,
}
use spliit_mcp.Store.Rows
use spliit_mcp.Spliit.Model.{Expense, ExpenseForm}
use spliit_mcp.Tools.Outcome.{Outcome, done, fail}
use spliit_mcp.Tools.World
use spliit_mcp.Tools.World.{Call, Page, Env, World, reply, continue, send, pure}
use spliit_mcp.Tools.Clients.{list_expenses, to_group}
use spliit_mcp.Tools.Duplicates.{is_past, matches, cursor_arg, pages_from, likely_duplicates}

-- Each expense is dated no later than those before it.
abbrev pub NewestFirst : List Expense → Type 0
NewestFirst [] = Unit
NewestFirst (e ∷ es) = All (λ (x : Expense). x.expense_date ≤ e.expense_date) es × NewestFirst es

-- The page of fifty from a cursor, which counts expenses.
abbrev pub page_of : List Expense → ℕ → Page
page_of es cursor = record {
  expenses = take 50 (drop cursor es);
  has_more = ltb (cursor + 50) (length es);
  next_cursor = cursor + 50;
}

-- The instance of a row answers requests for pages from the list, whatever it was asked before.
abbrev pub Serves : {D : Type 0} → Env D → Rows.Group → List Expense → Type 0
Serves env row es =
    (sent : List Call) (cursor : ℕ)
    → env.api.page sent (
        to_group env row.base_url row.spliit_group_id
          (World.list_expenses 50 (cursor_arg cursor) none))
      ≡ reply (page_of es cursor)

take_nil : {A : Type 0} (n : ℕ) → take {A = A} n [] ≡ []
take_nil zero = refl
take_nil (suc n) = refl

drop_nil : {A : Type 0} (n : ℕ) → drop {A = A} n [] ≡ []
drop_nil zero = refl
drop_nil (suc n) = refl

take-split :
    {A : Type 0} (a b : ℕ) (xs : List A) → take (a + b) xs ≡ take a xs ++ take b (drop a xs)
take-split zero b xs = let e : zero + b ≡ b = omega arith in ap (λ n. take n xs) e
take-split (suc a) b [] = take_nil (suc a + b) ∙ sym (take_nil b)
take-split (suc a) b (x ∷ xs) =
    let e : suc a + b ≡ suc (a + b) = omega arith in
    ap (λ n. take n (x ∷ xs)) e ∙ ap (λ l. x ∷ l) (take-split a b xs)

drop-drop : {A : Type 0} (a b : ℕ) (xs : List A) → drop (a + b) xs ≡ drop b (drop a xs)
drop-drop zero b xs = let e : zero + b ≡ b = omega arith in ap (λ n. drop n xs) e
drop-drop (suc a) b [] = drop_nil (suc a + b) ∙ sym (drop_nil b)
drop-drop (suc a) b (x ∷ xs) =
    let e : suc a + b ≡ suc (a + b) = omega arith in ap (λ n. drop n (x ∷ xs)) e ∙ drop-drop a b xs

drop_all : {A : Type 0} (n : ℕ) (xs : List A) → length xs ≤ n → drop n xs ≡ []
drop_all n [] h = drop_nil n
drop_all zero (x ∷ xs) h = absurd (omega (arith, h))
drop_all (suc n) (x ∷ xs) h = drop_all n xs (omega (arith, h))

NewestFirst-drop : (n : ℕ) (es : List Expense) → NewestFirst es → NewestFirst (drop n es)
NewestFirst-drop zero es h = h
NewestFirst-drop (suc n) [] h = tt
NewestFirst-drop (suc n) (e ∷ es) h = NewestFirst-drop n es h.1

module _ (form : ExpenseForm) where
  abbrev Past : Expense → Type 0
  Past e = is_past form e ≡ true

  All-drop : (n : ℕ) (es : List Expense) → All Past es → All Past (drop n es)
  All-drop zero es h = h
  All-drop (suc n) [] h = tt
  All-drop (suc n) (e ∷ es) h = All-drop n es h.1

  older-Past :
      (e : Expense) (es : List Expense)
      → All (λ (x : Expense). x.expense_date ≤ e.expense_date) es
      → Past e
      → All Past es
  older-Past e [] h p = tt
  older-Past e (x ∷ es) h p = (ground (arith, h.0), older-Past e es h.1 p)

  -- Once a page reaches past the window, so does everything after it.
  later-Past :
      (n : ℕ) (es : List Expense)
      → NewestFirst es
      → any (is_past form) (take n es) ≡ true
      → All Past (drop n es)
  unfolding any
  later-Past zero es s h = cc
  later-Past (suc n) [] s h = tt
  later-Past (suc n) (e ∷ es) s h = elim (Bool-cases (is_past form e)) [
    | inl past ↦ All-drop n es (older-Past e es s.0 past)
    | inr recent ↦ later-Past n es s.1 (rw recent at h)
  ]

  keep-Past : (n : ℕ) (es : List Expense) → All Past es → keep (matches form) (take n es) ≡ []
  unfolding keep
  keep-Past zero es h = refl
  keep-Past (suc n) [] h = refl
  keep-Past (suc n) (e ∷ es) h = rw h.0 (keep-Past n es h.1)

  -- The matches among some pages are those on the first page and those after it.
  matches_split :
      (n : ℕ) (es : List Expense)
      → keep (matches form) (take (suc n * 50) es)
        ≡ keep (matches form) (take 50 es) ++ keep (matches form) (take (n * 50) (drop 50 es))
  matches_split n es =
      let pages : suc n * 50 ≡ 50 + n * 50 = omega arith in
      ap (λ k. keep (matches form) (take k es)) pages
      ∙ ap (keep (matches form)) (take-split 50 (n * 50) es)
      ∙ keep-append (matches form) (take 50 es) (take (n * 50) (drop 50 es))

  nothing_later :
      (n : ℕ) (es : List Expense)
      → All Past (drop 50 es)
      → keep (matches form) (take (suc n * 50) es) ≡ keep (matches form) (take 50 es)
  nothing_later n es h =
      matches_split n es
      ∙ ap (λ l. keep (matches form) (take 50 es) ++ l) (keep-Past (n * 50) (drop 50 es) h)
      ∙ append-nil (keep (matches form) (take 50 es))

  continue-done :
      (r : Outcome (List Expense) × World) (f : List Expense → List Expense) {a : List Expense}
      → r.0 ≡ done a
      → (continue r (λ x. pure (f x))).0 ≡ done (f a)
  continue-done (done b, w) f h = cc
  continue-done (fail x, w) f h = cc

  module _ {D : Type 0} (env : Env D) (row : Rows.Group) (es : List Expense)
      (serves : Serves env row es) where
    nothing_left : (c : ℕ) → ltb (c + 50) (length es) ≡ false → drop 50 (drop c es) ≡ []
    nothing_left c h = sym (drop-drop c 50 es) ∙ drop_all (c + 50) es (ground (arith, h))

    -- The matches that are found on some pages from a cursor.
    pages_from-eq :
        (n c : ℕ) (w : World)
        → NewestFirst (drop c es)
        → (pages_from env row form n c w).0 ≡ done (keep (matches form) (take (n * 50) (drop c es)))
    unfolding pages_from list_expenses send keep
    pages_from-eq zero c w s = refl
    pages_from-eq (suc n) c w s =
        let page = page_of es c in
        rw (serves w.sent c) (elim (Bool-cases (any (is_past form) page.expenses)) [
          | inl past ↦
              rw past
                (ap done (sym (nothing_later n (drop c es) (later-Past 50 (drop c es) s past))))
          | inr recent ↦ elim (Bool-cases page.has_more) [
            | inl more ↦
                rw (recent, more)
                  (continue-done (pages_from env row form n (c + 50) _)
                      (λ rest. keep (matches form) page.expenses ++ rest)
                      (pages_from-eq n (c + 50) _ (
                        subst NewestFirst (sym (drop-drop c 50 es))
                          (NewestFirst-drop 50 (drop c es) s)))
                    ∙ ap done (
                        ap
                          (λ (l : List Expense).
                            keep (matches form) page.expenses
                            ++ keep (matches form) (take (n * 50) l))
                          (drop-drop c 50 es)
                        ∙ sym (matches_split n (drop c es))))
            | inr last ↦
                rw (recent, last)
                  (ap done (
                    sym (
                      nothing_later n (drop c es)
                        (subst (All Past) (sym (nothing_left c last)) tt))))
          ]
        ])

-- Against an instance that serves a group's expenses in pages, newest first, the duplicate check
-- succeeds, and finds exactly those of the newest 500 that have the new expense's amount and are
-- dated at most two days before or after it, in the instance's order.
pub likely_duplicates_complete :
    {D : Type 0} (env : Env D) (row : Rows.Group) (form : ExpenseForm) (es : List Expense)
    (w : World)
    → Serves env row es
    → NewestFirst es
    → (likely_duplicates env row form w).0 ≡ done (keep (matches form) (take 500 es))
unfolding likely_duplicates
likely_duplicates_complete env row form es w serves sorted =
    pages_from-eq form env row es serves 10 0 w sorted
