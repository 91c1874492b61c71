-- ===== src/Store/History.antt =====
-- Any history of calls of `MemoryStore`, from the empty store: what holds in every store that it
-- leads to.
use onlykas.Prelude.{List, [], ◌∷◌, arith}
use onlykas.Store.{Store, empty}
use onlykas.Store.Keys
use onlykas.Store.Keys.{
  IsKeyed, challenge_id, session_id, profile_id, post_id, pending_id, creator_id, covenant_key,
  receipt_id, payment_id, payment_workflow_id, membership_workflow_id, membership_id,
}
use onlykas.Store.Op.{Op, apply, run}
use onlykas.Store.Kept.{
  create_challenge-IsKeyed, prune_challenges-IsKeyed, create_session-IsKeyed,
  delete_session-IsKeyed, prune_sessions-IsKeyed, save_profile-IsKeyed,
  save_prepared_payment-IsKeyed, delete_prepared_payment-IsKeyed, prune_prepared_payments-IsKeyed,
  save_payment_workflow-IsKeyed, delete_payment_workflow-IsKeyed, save_prepared_membership-IsKeyed,
  delete_prepared_membership-IsKeyed, prune_prepared_memberships-IsKeyed,
  save_membership_workflow-IsKeyed, delete_membership_workflow-IsKeyed, release_publication-IsKeyed,
  prune_pending_publications-IsKeyed, publish_post-IsKeyed, reserve_publication-IsKeyed,
  finalize_purchase-IsKeyed, finalize_membership_purchase-IsKeyed,
}
use onlykas.Store.CovenantKeys

-- Every operation of the store keeps every map keyed by its values.
pub apply-IsKeyed : (op : Op) (s : Store) → IsKeyed s → IsKeyed (apply op s)
unfolding apply
apply-IsKeyed (Op.create_challenge v) s h = create_challenge-IsKeyed v s h
apply-IsKeyed (Op.consume_challenge id now) s h = Keys.consume_challenge-IsKeyed id now s h
apply-IsKeyed (Op.prune_challenges now) s h = prune_challenges-IsKeyed now s h
apply-IsKeyed (Op.create_session v) s h = create_session-IsKeyed v s h
apply-IsKeyed (Op.roll_session id expires_at) s h = Keys.roll_session-IsKeyed id expires_at s h
apply-IsKeyed (Op.delete_session id) s h = delete_session-IsKeyed id s h
apply-IsKeyed (Op.prune_sessions now) s h = prune_sessions-IsKeyed now s h
apply-IsKeyed (Op.save_profile v) s h = save_profile-IsKeyed v s h
apply-IsKeyed (Op.save_prepared_payment v) s h = save_prepared_payment-IsKeyed v s h
apply-IsKeyed (Op.delete_prepared_payment id) s h = delete_prepared_payment-IsKeyed id s h
apply-IsKeyed (Op.prune_prepared_payments now) s h = prune_prepared_payments-IsKeyed now s h
apply-IsKeyed (Op.save_payment_workflow v clock) s h = save_payment_workflow-IsKeyed v clock s h
apply-IsKeyed (Op.delete_payment_workflow id) s h = delete_payment_workflow-IsKeyed id s h
apply-IsKeyed (Op.claim_payment_workflow_terminal id state now rejection) s h =
    Keys.claim_payment-IsKeyed id state now rejection s h
apply-IsKeyed (Op.save_prepared_membership v) s h = save_prepared_membership-IsKeyed v s h
apply-IsKeyed (Op.delete_prepared_membership id) s h = delete_prepared_membership-IsKeyed id s h
apply-IsKeyed (Op.prune_prepared_memberships now) s h = prune_prepared_memberships-IsKeyed now s h
apply-IsKeyed (Op.save_membership_workflow v clock) s h =
    save_membership_workflow-IsKeyed v clock s h
apply-IsKeyed (Op.delete_membership_workflow id) s h = delete_membership_workflow-IsKeyed id s h
apply-IsKeyed (Op.claim_membership_workflow_terminal id state now rejection) s h =
    Keys.claim_membership-IsKeyed id state now rejection s h
apply-IsKeyed (Op.publish_post v) s h = publish_post-IsKeyed v s h
apply-IsKeyed (Op.reserve_publication v expires_at) s h =
    reserve_publication-IsKeyed v expires_at s h
apply-IsKeyed (Op.commit_publication v) s h = Keys.commit_publication-IsKeyed v s h
apply-IsKeyed (Op.release_publication id) s h = release_publication-IsKeyed id s h
apply-IsKeyed (Op.prune_pending_publications now) s h = prune_pending_publications-IsKeyed now s h
apply-IsKeyed (Op.delete_post id) s h = Keys.delete_post-IsKeyed id s h
apply-IsKeyed (Op.create_purchase v) s h = Keys.create_purchase-IsKeyed v s h
apply-IsKeyed (Op.finalize_purchase id v) s h = finalize_purchase-IsKeyed id v s h
apply-IsKeyed (Op.create_membership_purchase v) s h = Keys.create_membership_purchase-IsKeyed v s h
apply-IsKeyed (Op.finalize_membership_purchase id v) s h =
    finalize_membership_purchase-IsKeyed id v s h
apply-IsKeyed (Op.save_creator_covenant v) s h = CovenantKeys.save_creator_covenant-IsKeyed v s h
apply-IsKeyed (Op.finalize_offer id v) s h = CovenantKeys.finalize_offer-IsKeyed id v s h
apply-IsKeyed (Op.finalize_price_update id v) s h =
    CovenantKeys.finalize_price_update-IsKeyed id v s h
apply-IsKeyed (Op.finalize_cancellation id creator covenant_id) s h =
    CovenantKeys.finalize_cancellation-IsKeyed id creator covenant_id s h

pub run-IsKeyed : (ops : List Op) (s : Store) → IsKeyed s → IsKeyed (run ops s)
unfolding run
run-IsKeyed [] s h = h
run-IsKeyed (op ∷ ops) s h = run-IsKeyed ops (apply op s) (apply-IsKeyed op s h)

pub empty-IsKeyed : IsKeyed empty
empty-IsKeyed = ground arith
