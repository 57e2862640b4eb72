-- ===== src/Tools/Outcome.antt =====
-- What a tool handler of internal/mcp returns: a value, or the error that `toolError` shows to the
-- model. Each constructor of `Failure` is one error message of the source, with what it quotes.
use spliit_mcp.Prelude.{String, List, ◌≡◌, refl}
use spliit_mcp.Store.Rows.{StoreError}
use spliit_mcp.Spliit.Model.{Expense}

pub data Failure : Type 0 where
  -- userFromRequest
  no_verified_identity no_subject : Failure
  -- resolve, resolveExplicit, resolved.me
  no_default_group group_required no_identity : Failure
  no_such_group : String → Failure
  -- an error of the store, and one of the Spliit API
  stored : StoreError → Failure
  upstream : String → Failure
  group_not_found : String → Failure
  -- findByName: the name and the valid names
  unknown_participant : String → List String → Failure
  -- buildExpenseForm
  bad_amount bad_date : String → Failure
  zero_amount no_title participant_missing nobody_shares : Failure
  -- createExpense
  duplicates : List Expense → Failure
  -- buildGroupForm
  empty_new_name is_you has_expenses already_in_group : String → Failure
  no_participant_left nothing_to_change no_field_given : Failure
  -- joinGroup: the alias; registerGroup: the name and the ID
  you_required name_required group_id_required : Failure
  already_joined : String → Failure
  cannot_register : String → String → Failure

pub data Outcome {ℓ} (A : Type ℓ) : Type ℓ where
  done : A → Outcome A
  fail : Failure → Outcome A

infixl 5 ◌>>=◌ ◌>>◌
abbrev pub ◌>>=◌ {ℓ κ} : {A : Type ℓ} {B : Type κ} → Outcome A → (A → Outcome B) → Outcome B
done a >>= f = f a
fail e >>= f = fail e

abbrev pub ◌>>◌ {ℓ} : {B : Type ℓ} → Outcome (Unit {0}) → Outcome B → Outcome B
m >> k = m >>= λ _. k

-- What a chain that succeeded went through.
pub >>=-eq-done {ℓ κ} :
    {A : Type ℓ} {B : Type κ} (m : Outcome A) (f : A → Outcome B) {b : B}
    → (m >>= f) ≡ done b
    → (a : A) × (m ≡ done a) × (f a ≡ done b)
>>=-eq-done (done a) f h = (a, refl, h)
>>=-eq-done (fail e) f h = cc

pub done-pair {ℓ κ} :
    {A : Type ℓ} {B : Type κ} (a c : A) (b d : B)
    → ◌≡◌ {A = Outcome (A × B)} (done (a, b)) (done (c, d))
    → (a ≡ c) × (b ≡ d)
done-pair a c b d h = (cc, cc)
