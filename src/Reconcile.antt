-- ===== src/Reconcile.antt =====
-- backend/src/application/reconcile-workflows.ts: `WorkflowReconciler` over the in-memory store. The
-- answers of the gateways and of the verifier during one pass are parameters. Logging and metrics
-- are left out. An age is a difference that the source lets fall below zero; it is only compared
-- with a bound that is not negative, so the truncated difference decides alike.
pub mod Payments
pub mod Memberships
pub mod Run
pub mod Turns
pub mod Evidence
pub mod Outcomes
pub mod Counts
pub mod Settled
pub mod Receipts
use onlykas.Prelude.{ℕ, ◌+◌, ◌-◌, ◌*◌, Option, get_or}
use onlykas.Locale.{Locale}
use onlykas.Ports.{PaymentGateway, MembershipGateway, MembershipVerifier}
use onlykas.Store.{Store}

-- 24 hours.
abbrev pub stale_workflow_default : ℕ
stale_workflow_default = 24 * 60 * 60 * 1000

abbrev pub default_batch : ℕ
default_batch = 100

pub record Reconciler : Type 0 where
  pub locale : Locale
  pub payment_gateway : Option PaymentGateway
  pub membership_gateway : Option MembershipGateway
  pub membership_verifier : Option MembershipVerifier
  pub batch_size : ℕ
  pub stale_workflow_ms : ℕ

pub record Summary : Type 0 where
  pub scanned : ℕ
  pub confirmed : ℕ
  pub rejected : ℕ
  pub retried : ℕ
  pub abandoned : ℕ

-- The state of a pass: the counts so far and the store.
pub record Pass : Type 0 where
  pub summary : Summary
  pub store : Store

unfoldable pub workflow_age : Option ℕ → ℕ → ℕ
workflow_age submitted_at now = now - get_or submitted_at now

abbrev pub scan : Pass → Pass
scan p = record p { summary = record p.summary { scanned = p.summary.scanned + 1 } }
