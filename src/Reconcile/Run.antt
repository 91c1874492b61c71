-- ===== src/Reconcile/Run.antt =====
-- backend/src/application/reconcile-workflows.ts: one pass over all unresolved workflows.
use onlykas.Prelude.{ℕ}
use onlykas.Store.{Store}
use onlykas.Reconcile.{Reconciler, Pass}
use onlykas.Reconcile.Payments.{reconcile_payments}
use onlykas.Reconcile.Memberships.{reconcile_memberships}

unfoldable pub reconcile : Reconciler → ℕ → Store → Pass
reconcile d now s = reconcile_memberships d now (
    reconcile_payments d now (record {
      summary = record { scanned = 0; confirmed = 0; rejected = 0; retried = 0; abandoned = 0 };
      store = s;
    }))
