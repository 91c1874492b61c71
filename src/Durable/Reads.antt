-- ===== src/Durable/Reads.antt =====
-- backend/src/libsql-store.ts against backend/src/memory-store.ts: the answers of the two stores
-- while the tables of the one hold what the maps of the other hold.
use onlykas.Prelude.{
  ℕ, ◌≤◌, String, ◌≡◌, refl, not, ◌&&◌, some, List, arith, is_some, ltb, inl, inr, Option-cases,
}
use onlykas.Map.{get}
use onlykas.Domain.{Challenge, Session, PreparedPaymentRecord, PaymentWorkflow}
use onlykas.Ports.{returns}
use onlykas.Sql.Laws.{keep-rows, keep_key-rows}
use onlykas.Store
use onlykas.Store.{Store}
use onlykas.Store.Auth.{consume_challenge, get_session}
use onlykas.Store.Payments.{get_prepared_payment, get_payment_workflow}
use onlykas.Store.Keys.{IsKeyed, challenge_id, session_id, payment_id, payment_workflow_id}
use onlykas.Store.History.{run-IsKeyed, empty-IsKeyed}
use onlykas.Store.Op
use onlykas.Store.Op.{Op}
use onlykas.Durable.{Database, empty}
use onlykas.Durable.Rows.{
  Json, max_safe, number, nullable_number, challenge_from_row, session_from_row,
  prepared_payment_from_row,
}
use onlykas.Durable.Auth
use onlykas.Durable.Auth.{consumed, decoded}
use onlykas.Durable.Payments
use onlykas.Durable.Calls
use onlykas.Durable.Mirrors.{Mirrors, same, workflow_row}
use onlykas.Durable.Refines.{AcceptsAll, AreUnfinal, history-Mirrors}
use onlykas.Durable.Roundtrip.{IsSafe, payment_workflow_roundtrip}

-- Every stored number is a safe integer.
pub record IsSafeStore (s : Store) : Type 0 where
  pub challenges :
      (i : String) (v : Challenge) → get i s.challenges ≡ some v → v.expires_at ≤ max_safe
  pub sessions : (i : String) (v : Session) → get i s.sessions ≡ some v → v.expires_at ≤ max_safe
  pub payments :
      (i : String) (v : PreparedPaymentRecord)
      → get i s.prepared_payment_records ≡ some v
      → v.expires_at ≤ max_safe
  pub workflows :
      (i : String) (v : PaymentWorkflow)
      → get i s.payment_workflows ≡ some v
      → IsSafe v.submitted_at × IsSafe v.finalized_at

module _ (db : Database) (s : Store) (k : IsKeyed s) (safe : IsSafeStore s) (json : Json)
    (m : Mirrors json db s) where
  get_session-agrees :
      (id : String) (now : ℕ) → Auth.get_session id now db ≡ returns (get_session id now s)
  unfolding Auth.get_session get_session session_from_row number
  get_session-agrees id now =
      let found =
        keep-rows same session_id (λ r. r.id) (λ r. refl) id (λ r. ltb now r.expires_at) s.sessions
          k.sessions in
      elim (Option-cases (get id s.sessions)) [
        | inl e ↦ ground (arith, e, found, m.sessions)
        | inr (v, e) ↦ ground (arith, e, found, m.sessions, safe.sessions id v e)
      ]

  get_prepared_payment-agrees :
      (id : String) (now : ℕ)
      → Payments.get_prepared_payment id now db ≡ returns (get_prepared_payment id now s)
  unfolding Payments.get_prepared_payment get_prepared_payment prepared_payment_from_row number
  get_prepared_payment-agrees id now =
      let found =
        keep-rows same payment_id (λ r. r.id) (λ r. refl) id (λ r. ltb now r.expires_at)
          s.prepared_payment_records k.prepared_payment_records in
      elim (Option-cases (get id s.prepared_payment_records)) [
        | inl e ↦ ground (arith, e, found, m.payments)
        | inr (v, e) ↦ ground (arith, e, found, m.payments, safe.payments id v e)
      ]

  consume_challenge-agrees :
      (id : String) (now : ℕ)
      → now ≤ max_safe
      → (Auth.consume_challenge id now db).0 ≡ returns (consume_challenge id now s).0
  unfolding Auth.consume_challenge consume_challenge challenge_from_row number nullable_number
  consume_challenge-agrees id now h =
      let found =
        keep-rows same challenge_id (λ r. r.id) (λ r. refl) id
          (λ r. not (is_some r.consumed_at) && ltb now r.expires_at) s.challenges k.challenges in
      elim (Option-cases (get id s.challenges)) [
        | inl e ↦ ground (arith, e, found, m.challenges)
        | inr (v, e) ↦ ground (arith, e, found, m.challenges, safe.challenges id v e)
      ]

  get_payment_workflow-agrees :
      (id : String) → Payments.get_payment_workflow id db ≡ returns (get_payment_workflow id s)
  unfolding Payments.get_payment_workflow get_payment_workflow
  get_payment_workflow-agrees id =
      let found =
        keep_key-rows workflow_row payment_workflow_id (λ r. r.id) (λ r. refl) id
          s.payment_workflows k.payment_workflows in
      elim (Option-cases (get id s.payment_workflows)) [
        | inl e ↦ ground (arith, e, found, m.workflows)
        | inr (v, e) ↦
            let (submitted, finalized) = safe.workflows id v e in
            ground (arith, e, found, m.workflows, payment_workflow_roundtrip v submitted finalized)
      ]

-- After the same calls from the beginning, each accepted by the database in its turn, if each call of
-- `savePaymentWorkflow` among them is with a workflow that has no final time, for an id under which no
-- workflow with a final time is stored, and while all times that the store then holds are safe
-- integers, the two stores answer alike: for any id and any safe time, `getSession`,
-- `getPreparedPayment`, `getPaymentWorkflow` and `consumeChallenge` of `LibsqlStore` throw nothing and
-- return what those of `MemoryStore` return.
pub history_answers :
    (json : Json) (ops : List Op) (id : String) (now : ℕ)
    → AcceptsAll json ops empty
    → AreUnfinal ops Store.empty
    → IsSafeStore (Op.run ops Store.empty)
    → now ≤ max_safe
    → (Auth.get_session id now (Calls.run json ops empty)
        ≡ returns (get_session id now (Op.run ops Store.empty)))
      × (Payments.get_prepared_payment id now (Calls.run json ops empty)
          ≡ returns (get_prepared_payment id now (Op.run ops Store.empty)))
      × (Payments.get_payment_workflow id (Calls.run json ops empty)
          ≡ returns (get_payment_workflow id (Op.run ops Store.empty)))
      × ((Auth.consume_challenge id now (Calls.run json ops empty)).0
          ≡ returns (consume_challenge id now (Op.run ops Store.empty)).0)
history_answers json ops id now a u safe h =
    let db = Calls.run json ops empty in
    let s = Op.run ops Store.empty in
    let k = run-IsKeyed ops Store.empty empty-IsKeyed in
    let m = history-Mirrors json ops a u in
    (
      get_session-agrees db s k safe json m id now,
      get_prepared_payment-agrees db s k safe json m id now,
      get_payment_workflow-agrees db s k safe json m id,
      consume_challenge-agrees db s k safe json m id now h,
    )
