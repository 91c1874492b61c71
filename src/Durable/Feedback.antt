-- ===== src/Durable/Feedback.antt =====
-- backend/src/libsql-store.ts: the outbox of feedback, of which a worker leases entries.
use onlykas.Prelude.{ℕ, ◌+◌, String, Bool, true, none, some, List, leb, map, ◌==◌}
use onlykas.Prelude.Lists.{length, any, take, keep}
use onlykas.Prelude.Sort.{sort}
use onlykas.Sql.{insert, update, remove}
use onlykas.Ports.{Call, returns, throws}
use onlykas.Durable.{Database, FeedbackRow}

-- backend/src/adapters/feedback/feedback.ts
pub record FeedbackEntry : Type 0 where
  pub id : String
  pub received_at : String
  pub message : String

unfoldable pub enqueue_feedback : FeedbackEntry → Database → Call (Unit {0}) × Database
enqueue_feedback v db =
    elim (insert (λ w r. r.id == w.id) (λ _. true)
      (record {
        id = v.id;
        message = v.message;
        received_at = v.received_at;
        attempts = 0;
        lease_until = none;
      })
      db.feedback_outbox) [
        | none ↦ (throws, db)
        | some t ↦ (returns tt, record db { feedback_outbox = t })
      ]

unfoldable pub pending_feedback : Database → ℕ
pending_feedback db = length db.feedback_outbox

-- `lease_until IS NULL OR lease_until<=?`
abbrev pub is_due : ℕ → FeedbackRow → Bool
is_due now r = elim r.lease_until [ none ↦ true | some t ↦ leb t now ]

abbrev pub leased : ℕ → FeedbackRow → FeedbackRow
leased until r = record r { lease_until = some until; attempts = r.attempts + 1 }

abbrev pub entry_of : FeedbackRow → FeedbackEntry
entry_of r = record { id = r.id; received_at = r.received_at; message = r.message }

-- `binary` is the order of texts that SQLite sorts by.
module _ (binary : String → String → Bool) where
  -- The rows of the inner query.
  unfoldable pub due_feedback : ℕ → ℕ → List FeedbackRow → List FeedbackRow
  due_feedback limit now t =
      take limit (sort (λ a b. binary a.received_at b.received_at) (keep (is_due now) t))

  -- `id IN (...)`
  abbrev pub is_picked : List FeedbackRow → FeedbackRow → Bool
  is_picked picked r = any (λ p. p.id == r.id) picked

  unfoldable pub claim_feedback : ℕ → ℕ → ℕ → Database → List FeedbackEntry × Database
  claim_feedback limit lease_ms now db =
      let test = is_picked (due_feedback limit now db.feedback_outbox) in
      (
        map entry_of (keep test db.feedback_outbox),
        record db { feedback_outbox = update test (leased (now + lease_ms)) db.feedback_outbox },
      )

unfoldable pub acknowledge_feedback : String → Database → Database
acknowledge_feedback id db = record db {
  feedback_outbox = remove (λ r. r.id == id) db.feedback_outbox;
}

unfoldable pub release_feedback : String → ℕ → Database → Database
release_feedback id retry_at db = record db {
  feedback_outbox =
      update (λ r. r.id == id) (λ r. record r { lease_until = some retry_at }) db.feedback_outbox;
}
