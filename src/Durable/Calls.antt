-- ===== src/Durable/Calls.antt =====
-- The calls of `Store.Op` on `LibsqlStore` (backend/src/libsql-store.ts).
use onlykas.Prelude.{List, [], ◌∷◌}
use onlykas.Store.Op.{
  Op, create_challenge, consume_challenge, prune_challenges, create_session, roll_session,
  delete_session, prune_sessions, save_profile, save_prepared_payment, delete_prepared_payment,
  prune_prepared_payments, save_payment_workflow, delete_payment_workflow,
  claim_payment_workflow_terminal, save_prepared_membership, delete_prepared_membership,
  prune_prepared_memberships, save_membership_workflow, delete_membership_workflow,
  claim_membership_workflow_terminal, publish_post, reserve_publication, commit_publication,
  release_publication, prune_pending_publications, delete_post, create_purchase, finalize_purchase,
  create_membership_purchase, finalize_membership_purchase, save_creator_covenant, finalize_offer,
  finalize_price_update, finalize_cancellation,
}
use onlykas.Durable.{Database}
use onlykas.Durable.Rows.{Json}
use onlykas.Durable.Auth
use onlykas.Durable.Payments
use onlykas.Durable.Memberships
use onlykas.Durable.Posts
use onlykas.Durable.Purchases
use onlykas.Durable.Covenants

-- The database that a call leaves behind.
unfoldable pub apply : Json → Op → Database → Database
apply json (create_challenge v) db = (Auth.create_challenge v db).1
apply json (consume_challenge id now) db = (Auth.consume_challenge id now db).1
apply json (prune_challenges now) db = Auth.prune_challenges now db
apply json (create_session v) db = (Auth.create_session v db).1
apply json (roll_session id expires_at) db = (Auth.roll_session id expires_at db).1
apply json (delete_session id) db = Auth.delete_session id db
apply json (prune_sessions now) db = Auth.prune_sessions now db
apply json (save_profile v) db = (Auth.save_profile v db).1
apply json (save_prepared_payment v) db = (Payments.save_prepared_payment v db).1
apply json (delete_prepared_payment id) db = Payments.delete_prepared_payment id db
apply json (prune_prepared_payments now) db = Payments.prune_prepared_payments now db
apply json (save_payment_workflow v clock) db = Payments.save_payment_workflow v clock db
apply json (delete_payment_workflow id) db = Payments.delete_payment_workflow id db
apply json (claim_payment_workflow_terminal id state now rejection) db =
    (Payments.claim_payment_workflow_terminal id state now rejection db).1
apply json (save_prepared_membership v) db = (Memberships.save_prepared_membership json v db).1
apply json (delete_prepared_membership id) db = Memberships.delete_prepared_membership id db
apply json (prune_prepared_memberships now) db = Memberships.prune_prepared_memberships now db
apply json (save_membership_workflow v clock) db = Memberships.save_membership_workflow v clock db
apply json (delete_membership_workflow id) db = Memberships.delete_membership_workflow id db
apply json (claim_membership_workflow_terminal id state now rejection) db =
    (Memberships.claim_membership_workflow_terminal id state now rejection db).1
apply json (publish_post v) db = (Posts.publish_post v db).1
apply json (reserve_publication v expires_at) db = (Posts.reserve_publication v expires_at db).1
apply json (commit_publication v) db = (Posts.commit_publication v db).1
apply json (release_publication id) db = Posts.release_publication id db
apply json (prune_pending_publications now) db = Posts.prune_pending_publications now db
apply json (delete_post id) db = (Posts.delete_post id db).1
apply json (create_purchase v) db = (Purchases.create_purchase v db).1
apply json (finalize_purchase id v) db = (Purchases.finalize_purchase id v db).1
apply json (create_membership_purchase v) db = (Purchases.create_membership_purchase v db).1
apply json (finalize_membership_purchase id v) db =
    (Purchases.finalize_membership_purchase id v db).1
apply json (save_creator_covenant v) db = (Covenants.save_creator_covenant v db).1
apply json (finalize_offer id v) db = (Covenants.finalize_offer id v db).1
apply json (finalize_price_update id v) db = (Covenants.finalize_price_update id v db).1
apply json (finalize_cancellation id creator covenant_id) db =
    (Covenants.finalize_cancellation id creator covenant_id db).1

unfoldable pub run : Json → List Op → Database → Database
run json [] db = db
run json (op ∷ ops) db = run json ops (apply json op db)
