-- ===== src/Durable/Roundtrip.antt =====
-- backend/src/libsql-store.ts: what the decoders make of the rows that the store writes.
use onlykas.Prelude.Int.{pos}
use onlykas.Prelude.Lists.{any, All}
use onlykas.Prelude.{
  false, not, List, [], ◌∷◌, map, ℕ, ◌≤◌, ◌≡◌, refl, Option, none, some, arith, is_some, inl, inr,
  Option-cases, Bool-cases, if◌then◌else◌,
}
use onlykas.Domain.{
  Profile, PaymentWorkflow, PreparedMembershipRecord, WorkflowState, MembershipKind,
}
use onlykas.Ports.{returns, throws}
use onlykas.Durable.Rows.{
  Json, JsonValue, array, integer, is_input, item_number, read_items, max_safe, text, number,
  nullable_number, profile_row, profile_from_row, state_text, workflow_state,
  payment_workflow_from_row, kind_text, membership_kind, validated_json, sign_inputs,
  prepared_membership_row, prepared_membership_from_row,
}
use onlykas.Durable.Mirrors.{workflow_row}

-- A safe integer, or null.
abbrev pub IsSafe : Option ℕ → Type 0
IsSafe none = Unit
IsSafe (some n) = n ≤ max_safe

pub nullable_number_lem : (n : Option ℕ) → IsSafe n → nullable_number n ≡ returns n
unfolding nullable_number number
nullable_number_lem none h = refl
nullable_number_lem (some n) h = ground arith

workflow_state-state_text : (w : WorkflowState) → workflow_state (state_text w) ≡ returns w
unfolding workflow_state state_text
workflow_state-state_text WorkflowState.submitted = refl
workflow_state-state_text WorkflowState.confirmed = refl
workflow_state-state_text WorkflowState.rejected = refl

membership_kind-kind_text : (k : MembershipKind) → membership_kind (kind_text k) ≡ returns k
unfolding membership_kind kind_text
membership_kind-kind_text MembershipKind.offer = refl
membership_kind-kind_text MembershipKind.purchase = refl
membership_kind-kind_text MembershipKind.update = refl
membership_kind-kind_text MembershipKind.cancel = refl

-- The row of a payment workflow is read back as the workflow, whatever its state, if its times are
-- safe integers.
pub payment_workflow_roundtrip :
    (v : PaymentWorkflow)
    → IsSafe v.submitted_at
    → IsSafe v.finalized_at
    → payment_workflow_from_row (workflow_row v) ≡ returns v
unfolding payment_workflow_from_row
payment_workflow_roundtrip v submitted finalized = ground (
  arith,
  workflow_state-state_text v.state,
  nullable_number_lem v.submitted_at submitted,
  nullable_number_lem v.finalized_at finalized,
)

pub profile_roundtrip :
    (v : Profile) → v.updated_at ≤ max_safe → profile_from_row (profile_row v) ≡ returns v
unfolding profile_from_row profile_row number
profile_roundtrip v h = elim (Bool-cases v.is_public) [
  | inl e ↦ ground (arith, e)
  | inr e ↦ ground (arith, e)
]

-- What `JSON.parse` gives for a list of numbers.
abbrev pub json_array : List ℕ → JsonValue
json_array ns = array (map (λ n. integer (pos n)) ns)

read_items-safe :
    (ns : List ℕ)
    → All (λ n. n ≤ max_safe) ns
    → (any (λ x. not (is_input x)) (map (λ n. integer (pos n)) ns) ≡ false)
      × (map item_number (map (λ n. integer (pos n)) ns) ≡ ns)
read_items-safe [] h = (refl, refl)
read_items-safe (n ∷ ns) h = ground (arith, read_items-safe ns h.1)

sign_inputs-stringify :
    (json : Json) (ns : List ℕ)
    → json.parse (json.stringify ns) ≡ returns (json_array ns)
    → All (λ n. n ≤ max_safe) ns
    → sign_inputs json (json.stringify ns) ≡ returns ns
unfolding sign_inputs read_items
sign_inputs-stringify json ns inverse h = ground (arith, inverse, read_items-safe ns h)

-- The row of a prepared membership is read back as the record, whatever its kind, if `JSON.parse`
-- gives the array of the inputs for what `JSON.stringify` writes for them, the transaction is JSON, the
-- inputs, the output's index and the time are safe integers, and the record has a price; a record
-- without a price is written, and then cannot be read.
pub prepared_membership_roundtrip :
    (json : Json) (v : PreparedMembershipRecord) (parsed : JsonValue)
    → json.parse (json.stringify v.sign_inputs) ≡ returns (json_array v.sign_inputs)
    → json.parse v.transaction ≡ returns parsed
    → All (λ n. n ≤ max_safe) v.sign_inputs
    → IsSafe v.member_output_index
    → v.expires_at ≤ max_safe
    → prepared_membership_from_row json (prepared_membership_row json v)
      ≡ (if is_some v.price_sompi then returns v else throws)
unfolding prepared_membership_from_row prepared_membership_row validated_json number text
prepared_membership_roundtrip json v parsed inverse transaction inputs index expires =
    let read = sign_inputs-stringify json v.sign_inputs inverse inputs in
    let kind = membership_kind-kind_text v.kind in
    let output = nullable_number_lem v.member_output_index index in
    elim (Option-cases v.price_sompi) [
      | inl e ↦ ground (arith, e, read, transaction, kind, output)
      | inr (p, e) ↦ ground (arith, e, read, transaction, kind, output)
    ]
