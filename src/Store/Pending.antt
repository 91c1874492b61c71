-- ===== src/Store/Pending.antt =====
-- What `pendingPaymentWorkflows` of `MemoryStore` lists.
use onlykas.Prelude.{ℕ, ◌≤◌, ◌≡◌, ◌↔◌, ap, Bool, some, List, arith}
use onlykas.Prelude.Lists.{
  In, length, length-take, length-keep, take-all, keep, In-keep, keep-In, In-take,
}
use onlykas.Prelude.Sort.{
  sort, sort-In, In-sort, IsSorted, IsOrder, sort-IsSorted, length-sort, IsSorted-take,
}
use onlykas.Locale.{Locale}
use onlykas.Map.{get, values}
use onlykas.Map.Laws.{In-get, get-In}
use onlykas.Domain.{PaymentWorkflow, submitted, is_submitted}
use onlykas.Store.{Store}
use onlykas.Store.Payments.{pending_payment_workflows, payment_order}
use onlykas.Store.Keys.{IsKeyed, payment_workflow_id}

module _ (locale : Locale) (limit : ℕ) (s : Store) where
  pub length-pending : length (pending_payment_workflows locale limit s) ≤ limit
  unfolding pending_payment_workflows
  length-pending = length-take limit (
      sort (payment_order locale)
        (keep (λ (v : PaymentWorkflow). is_submitted v.state) (values s.payment_workflows)))

  pub pending-stored :
      (w : PaymentWorkflow)
      → IsKeyed s
      → In w (pending_payment_workflows locale limit s)
      → (get w.prepared_payment_id s.payment_workflows ≡ some w) × (w.state ≡ submitted)
  unfolding pending_payment_workflows
  pending-stored w k i =
      let p : PaymentWorkflow → Bool = λ v. is_submitted v.state in
      let all = keep p (values s.payment_workflows) in
      let kept = In-keep p w (values s.payment_workflows) (
        sort-In (payment_order locale) w all
          (In-take w limit (sort (payment_order locale) all) i)) in
      (In-get payment_workflow_id w s.payment_workflows k.payment_workflows kept.0, ground arith)

-- In a store whose maps are keyed by their values, a limit of at least the number of stored
-- workflows lists every submitted one, and nothing else.
pub pending_payment_workflows_iff :
    (locale : Locale) (limit : ℕ) (s : Store) (w : PaymentWorkflow)
    → IsKeyed s
    → length (values s.payment_workflows) ≤ limit
    → In w (pending_payment_workflows locale limit s)
      ↔ ((get w.prepared_payment_id s.payment_workflows ≡ some w) × (w.state ≡ submitted))
unfolding pending_payment_workflows
pending_payment_workflows_iff locale limit s w k room = (pending-stored locale limit s w k, listed)
  where
    p : PaymentWorkflow → Bool
    p v = is_submitted v.state

    all : List PaymentWorkflow
    all = keep p (values s.payment_workflows)

    fits : length (sort (payment_order locale) all) ≤ limit
    fits = omega (
      arith,
      length-sort (payment_order locale) all,
      length-keep p (values s.payment_workflows),
      room,
    )

    listed :
        (get w.prepared_payment_id s.payment_workflows ≡ some w) × (w.state ≡ submitted)
        → In w (pending_payment_workflows locale limit s)
    listed h = rw (take-all limit (sort (payment_order locale) all) fits) (
        In-sort (payment_order locale) w all (
          keep-In p w (values s.payment_workflows)
            (get-In w.prepared_payment_id w s.payment_workflows h.0) (ap is_submitted h.1)))

-- The pending workflows are listed in the order in which the locale sorts their ids, if that is an
-- order.
pub pending-IsSorted :
    (locale : Locale) (limit : ℕ) (s : Store)
    → IsOrder (payment_order locale)
    → IsSorted (payment_order locale) (pending_payment_workflows locale limit s)
unfolding pending_payment_workflows
pending-IsSorted locale limit s o =
    let all = keep (λ (v : PaymentWorkflow). is_submitted v.state) (values s.payment_workflows) in
    IsSorted-take (payment_order locale) limit (sort (payment_order locale) all)
      (sort-IsSorted (payment_order locale) o all)
