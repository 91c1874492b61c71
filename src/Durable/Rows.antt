-- ===== src/Durable/Rows.antt =====
-- backend/src/libsql-store.ts: the decoders of rows, which throw at a value that the column should
-- not hold, and the rows that the store writes for a record. JSON is the parameter `Json`.
use onlykas.Prelude.Int.{ℤ, pos, pos_part, leb_ℤ}
use onlykas.Prelude.Lists.{any}
use onlykas.Prelude.{
  Bool, false, ◌&&◌, map, ℕ, ◌^◌, ◌-◌, String, Bool, Option, none, some, List, leb, eqb, get_or,
  not, ◌==◌, if◌then◌else◌,
}
use onlykas.Domain.{
  Challenge, Session, Profile, Post, CreatorCovenant, CovenantStatus, PreparedPaymentRecord,
  PaymentWorkflow, MembershipWorkflow, WorkflowState, MembershipKind, PreparedMembershipRecord,
}
use onlykas.Ports.{Call, returns, throws, ◌>>=◌}
use onlykas.Durable.{ProfileRow, WorkflowRow, PreparedMembershipRow, CovenantRow}

-- What `JSON.parse` makes of a text, as far as the decoders look: an item of an array is an integer,
-- another number, or no number.
pub data JsonItem : Type 0 where
  integer : ℤ → JsonItem
  fraction no_number : JsonItem

pub data JsonValue : Type 0 where
  array : List JsonItem → JsonValue
  no_array : JsonValue

-- `JSON.stringify` of a list of numbers, and `JSON.parse`, which throws at a text that is not JSON.
pub record Json : Type 0 where
  pub stringify : List ℕ → String
  pub parse : String → Call JsonValue

-- `Number.MAX_SAFE_INTEGER`
abbrev pub max_safe : ℕ
max_safe = 2 ^ 53 - 1

-- `text` of a nullable column.
unfoldable pub text : Option String → Call String
text none = throws
text (some v) = returns v

-- `number`, of a column that holds an integer.
unfoldable pub number : ℕ → Call ℕ
number v = if leb v max_safe then returns v else throws

unfoldable pub nullable_number : Option ℕ → Call (Option ℕ)
unfolding number
nullable_number none = returns none
nullable_number (some v) = number v >>= λ w. returns (some w)

unfoldable pub challenge_from_row : Challenge → Call Challenge
unfolding number nullable_number
challenge_from_row r = do
  e ← number r.expires_at
  c ← nullable_number r.consumed_at
  returns (record r { expires_at = e; consumed_at = c })

unfoldable pub session_from_row : Session → Call Session
unfolding number
session_from_row r = do e ← number r.expires_at; returns (record r { expires_at = e })

unfoldable pub profile_from_row : ProfileRow → Call Profile
unfolding number
profile_from_row r = do
  u ← number r.updated_at
  returns (record {
    address = r.address;
    display_name = r.display_name;
    is_public = not (eqb r.is_public 0);
    updated_at = u;
  })

unfoldable pub post_from_row : Post → Call Post
unfolding number
post_from_row r = do
  size ← number r.media_size
  published ← number r.published_at
  returns (record r { media_size = size; published_at = published })

unfoldable pub prepared_payment_from_row : PreparedPaymentRecord → Call PreparedPaymentRecord
unfolding number
prepared_payment_from_row r = do e ← number r.expires_at; returns (record r { expires_at = e })

-- `paymentWorkflowState`, `membershipWorkflowState`
unfoldable pub workflow_state : String → Call WorkflowState
workflow_state v =
    if v == "SUBMITTED"
    then returns WorkflowState.submitted
    else if v == "CONFIRMED"
    then returns WorkflowState.confirmed
    else if v == "REJECTED"
    then returns WorkflowState.rejected
    else throws

unfoldable pub payment_workflow_from_row : WorkflowRow → Call PaymentWorkflow
unfolding workflow_state nullable_number
payment_workflow_from_row r = do
  state ← workflow_state r.state
  submitted ← nullable_number r.submitted_at
  finalized ← nullable_number r.finalized_at
  returns (record {
    prepared_payment_id = r.id;
    state = state;
    transaction_id = r.transaction_id;
    rejection = r.rejection;
    submitted_at = submitted;
    finalized_at = finalized;
  })

unfoldable pub membership_workflow_from_row : WorkflowRow → Call MembershipWorkflow
unfolding workflow_state nullable_number
membership_workflow_from_row r = do
  state ← workflow_state r.state
  submitted ← nullable_number r.submitted_at
  finalized ← nullable_number r.finalized_at
  returns (record {
    prepared_membership_id = r.id;
    state = state;
    transaction_id = r.transaction_id;
    rejection = r.rejection;
    submitted_at = submitted;
    finalized_at = finalized;
  })

unfoldable pub creator_covenant_from_row : CovenantRow → CreatorCovenant
creator_covenant_from_row r = record {
  creator = r.creator;
  covenant_id = r.covenant_id;
  price_sompi = r.price_sompi;
  status = if r.status == "CANCELED" then some CovenantStatus.canceled else none;
}

unfoldable pub membership_kind : String → Call MembershipKind
membership_kind v =
    if v == "offer"
    then returns MembershipKind.offer
    else if v == "purchase"
    then returns MembershipKind.purchase
    else if v == "update"
    then returns MembershipKind.update
    else if v == "cancel"
    then returns MembershipKind.cancel
    else throws

unfoldable pub kind_text : MembershipKind → String
kind_text MembershipKind.offer = "offer"
kind_text MembershipKind.purchase = "purchase"
kind_text MembershipKind.update = "update"
kind_text MembershipKind.cancel = "cancel"

-- `typeof x !== "number" || !Number.isSafeInteger(x) || x < 0` does not hold.
abbrev pub is_input : JsonItem → Bool
is_input (integer n) = leb_ℤ (pos 0) n && leb_ℤ n (pos max_safe)
is_input _ = false

-- The number that a valid item is.
abbrev pub item_number : JsonItem → ℕ
item_number (integer n) = pos_part n
item_number _ = 0

-- `parsed.some(...)` throws, or the items are returned as they are.
unfoldable pub read_items : List JsonItem → Call (List ℕ)
read_items items =
    if any (λ x. not (is_input x)) items then throws else returns (map item_number items)

module _ (json : Json) where
  unfoldable pub validated_json : String → Call String
  validated_json v = do parsed ← json.parse v; returns v

  unfoldable pub sign_inputs : String → Call (List ℕ)
  unfolding read_items
  sign_inputs v = do
    parsed ← json.parse v
    elim parsed [ no_array ↦ throws | array items ↦ read_items items ]

  unfoldable pub prepared_membership_from_row :
      PreparedMembershipRow → Call PreparedMembershipRecord
  unfolding validated_json sign_inputs membership_kind nullable_number number text
  prepared_membership_from_row r = do
    transaction ← validated_json r.transaction_json
    inputs ← sign_inputs r.sign_inputs
    index ← nullable_number r.member_output_index
    kind ← membership_kind r.kind
    e ← number r.expires_at
    price ← text r.price_sompi
    returns (record {
      id = r.id;
      transaction = transaction;
      fingerprint = r.fingerprint;
      covenant_id = r.covenant_id;
      sign_inputs = inputs;
      member_output_index = index;
      creator = r.creator;
      buyer = r.buyer;
      kind = kind;
      expires_at = e;
      price_sompi = some price;
    })

  -- The arguments of `savePreparedMembership`.
  unfoldable pub prepared_membership_row : PreparedMembershipRecord → PreparedMembershipRow
  unfolding kind_text
  prepared_membership_row v = record {
    id = v.id;
    transaction_json = v.transaction;
    fingerprint = v.fingerprint;
    covenant_id = v.covenant_id;
    sign_inputs = json.stringify v.sign_inputs;
    member_output_index = v.member_output_index;
    creator = v.creator;
    buyer = v.buyer;
    kind = kind_text v.kind;
    expires_at = v.expires_at;
    price_sompi = v.price_sompi;
  }

unfoldable pub state_text : WorkflowState → String
state_text WorkflowState.submitted = "SUBMITTED"
state_text WorkflowState.confirmed = "CONFIRMED"
state_text WorkflowState.rejected = "REJECTED"

-- The arguments of `savePaymentWorkflow`; `clock` is the value of `Date.now()`.
unfoldable pub payment_workflow_row : PaymentWorkflow → ℕ → WorkflowRow
unfolding state_text
payment_workflow_row v clock = record {
  id = v.prepared_payment_id;
  state = state_text v.state;
  transaction_id = v.transaction_id;
  rejection = v.rejection;
  submitted_at = some (get_or v.submitted_at clock);
  finalized_at = none;
}

-- The arguments of `saveMembershipWorkflow`.
unfoldable pub membership_workflow_row : MembershipWorkflow → ℕ → WorkflowRow
unfolding state_text
membership_workflow_row v clock = record {
  id = v.prepared_membership_id;
  state = state_text v.state;
  transaction_id = v.transaction_id;
  rejection = v.rejection;
  submitted_at = some (get_or v.submitted_at clock);
  finalized_at = none;
}

-- The arguments of `saveProfile`.
unfoldable pub profile_row : Profile → ProfileRow
profile_row v = record {
  address = v.address;
  display_name = v.display_name;
  is_public = if v.is_public then 1 else 0;
  updated_at = v.updated_at;
}

-- A new row of a covenant.
unfoldable pub covenant_row : CreatorCovenant → CovenantRow
covenant_row v = record {
  creator = v.creator;
  covenant_id = v.covenant_id;
  price_sompi = v.price_sompi;
  status = "ACTIVE";
}
