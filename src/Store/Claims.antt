-- ===== src/Store/Claims.antt =====
-- The terminal claim of a payment workflow in `MemoryStore`: one caller wins it.
use onlykas.Prelude.{
  ℕ, String, ◌≡◌, refl, ◌≢◌, true, Option, none, some, List, [], ◌∷◌, arith, eq_iff, is_some,
  get_or, or_else, inl, inr, Option-cases,
}
use onlykas.Prelude.Lists.{All}
use onlykas.Map.{get}
use onlykas.Map.Laws.{get-set, get-delete}
use onlykas.Domain.{PaymentWorkflow, WorkflowState}
use onlykas.Store.{Store}
use onlykas.Store.Payments.{
  claim_payment_workflow_terminal, save_payment_workflow, delete_payment_workflow,
  earlier_submission,
}
use onlykas.Store.Frames.{frame}
use onlykas.Store.Op.{Op, apply, run}

-- The workflow is gone or terminal.
abbrev pub IsFinal : Option PaymentWorkflow → Type 0
IsFinal none = Unit
IsFinal (some w) = is_some w.finalized_at ≡ true

-- The call writes the workflow `id` anew.
abbrev pub Reopens : String → Op → Type 0
Reopens id (Op.save_payment_workflow w clock) = w.prepared_payment_id ≡ id
Reopens id _ = ⊥

module _ (id : String) (s : Store) (h : IsFinal (get id s.payment_workflows)) where
  save-IsFinal :
      (w : PaymentWorkflow) (clock : ℕ)
      → w.prepared_payment_id ≢ id
      → IsFinal (get id (save_payment_workflow w clock s).payment_workflows)
  unfolding save_payment_workflow
  save-IsFinal w clock ne =
      let first =
        get_or
          (or_else (earlier_submission (get w.prepared_payment_id s.payment_workflows))
            w.submitted_at)
          clock in
      ground (
        arith,
        eq_iff w.prepared_payment_id id,
        get-set w.prepared_payment_id id (record w { submitted_at = some first })
            s.payment_workflows,
      )

  delete-IsFinal :
      (other : String) → IsFinal (get id (delete_payment_workflow other s).payment_workflows)
  unfolding delete_payment_workflow
  delete-IsFinal other = ground (arith, get-delete other id s.payment_workflows)

  claim-IsFinal :
      (other : String) (state : WorkflowState) (now : ℕ) (rejection : Option String)
      → IsFinal
          (get id (claim_payment_workflow_terminal other state now rejection s).1.payment_workflows)
  unfolding claim_payment_workflow_terminal
  claim-IsFinal other state now rejection = elim (Option-cases (get other s.payment_workflows)) [
    | inl e ↦ ground arith
    | inr (w, e) ↦ ground (
      arith,
      eq_iff other id,
      get-set other id (record w { state = state; rejection = rejection; finalized_at = some now })
          s.payment_workflows,
    )
  ]

apply-IsFinal :
    (id : String) (op : Op) (s : Store)
    → ¬ (Reopens id op)
    → IsFinal (get id s.payment_workflows)
    → IsFinal (get id (apply op s).payment_workflows)
unfolding apply
apply-IsFinal id (Op.save_payment_workflow w clock) s shut h = save-IsFinal id s h w clock shut
apply-IsFinal id (Op.delete_payment_workflow other) s shut h = delete-IsFinal id s h other
apply-IsFinal id (Op.claim_payment_workflow_terminal other state now rejection) s shut h =
    claim-IsFinal id s h other state now rejection
apply-IsFinal id op s shut h = rw ((frame op s).payment_workflows refl) h

run-IsFinal :
    (id : String) (ops : List Op) (s : Store)
    → All (λ op. ¬ (Reopens id op)) ops
    → IsFinal (get id s.payment_workflows)
    → IsFinal (get id (run ops s).payment_workflows)
unfolding run
run-IsFinal id [] s shut h = h
run-IsFinal id (op ∷ ops) s shut h =
    run-IsFinal id ops (apply op s) shut.1 (apply-IsFinal id op s shut.0 h)

final_is_refused :
    (id : String) (state : WorkflowState) (now : ℕ) (rejection : Option String) (s : Store)
    → IsFinal (get id s.payment_workflows)
    → claim_payment_workflow_terminal id state now rejection s ≡ (none, s)
unfolding claim_payment_workflow_terminal
final_is_refused id state now rejection s h = ground arith

module _ (id : String) (state : WorkflowState) (now : ℕ) (rejection : Option String)
    (s : Store) where
  claimed-IsFinal :
      IsFinal
        (get id (claim_payment_workflow_terminal id state now rejection s).1.payment_workflows)
  unfolding claim_payment_workflow_terminal
  claimed-IsFinal = elim (Option-cases (get id s.payment_workflows)) [
    | inl e ↦ ground arith
    | inr (w, e) ↦ ground (
      arith,
      eq_iff id id,
      get-set id id (record w { state = state; rejection = rejection; finalized_at = some now })
          s.payment_workflows,
    )
  ]

  -- Once a caller has claimed a payment workflow, or been refused, every later claim of it returns
  -- null and changes nothing, for any state and at any time, after any calls of the store of which
  -- none saves a workflow of that id.
  pub claim_payment_workflow_once :
      (later_state : WorkflowState) (later : ℕ) (reason : Option String) (ops : List Op)
      → All (λ op. ¬ (Reopens id op)) ops
      → let t = run ops (claim_payment_workflow_terminal id state now rejection s).1 in
        claim_payment_workflow_terminal id later_state later reason t ≡ (none, t)
  claim_payment_workflow_once later_state later reason ops shut =
      let s' = (claim_payment_workflow_terminal id state now rejection s).1 in
      final_is_refused id later_state later reason (run ops s')
        (run-IsFinal id ops s' shut claimed-IsFinal)

-- Saving a workflow whose `finalizedAt` is unset undoes an earlier claim: the next claim wins again,
-- whatever workflow was stored before.
pub save_reopens_claim :
    (w : PaymentWorkflow) (clock : ℕ) (state : WorkflowState) (now : ℕ) (rejection : Option String)
    (s : Store)
    → w.finalized_at ≡ none
    → (claim_payment_workflow_terminal w.prepared_payment_id state now rejection
        (save_payment_workflow w clock s)).0
      ≡ some now
unfolding claim_payment_workflow_terminal save_payment_workflow
save_reopens_claim w clock state now rejection s open_again =
    let id = w.prepared_payment_id in
    let first =
      get_or (or_else (earlier_submission (get id s.payment_workflows)) w.submitted_at) clock in
    ground (
      arith,
      eq_iff id id,
      get-set id id (record w { submitted_at = some first }) s.payment_workflows,
    )
