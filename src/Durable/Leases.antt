-- ===== src/Durable/Leases.antt =====
-- backend/src/libsql-store.ts: an entry of the feedback outbox is leased to one worker at a time, and
-- leaves the outbox by an acknowledgement only.
use onlykas.Prelude.{
  ℕ, ◌+◌, ◌<◌, String, ◌≡◌, refl, Bool, true, false, ◌&&◌, List, [], ◌∷◌, map, ap, arith, ◌==◌,
  eq_iff, inl, inr, Bool-cases,
}
use onlykas.Prelude.Lists.{In, any, keep, any-In, In-keep, In-take}
use onlykas.Prelude.Sort.{sort, sort-In}
use onlykas.Sql.{update}
use onlykas.Durable.{Database, FeedbackRow}
use onlykas.Durable.Feedback.{claim_feedback, is_due, leased, entry_of, due_feedback, is_picked}

-- Some row of the id could be leased at that time.
abbrev pub is_free : String → ℕ → FeedbackRow → Bool
is_free id now r = (r.id == id) && is_due now r

module _ (binary : String → String → Bool) where
  -- What is picked of the due rows with `limit` is due.
  due_feedback-In :
      (limit now : ℕ) (t : List FeedbackRow) (r : FeedbackRow)
      → In r (due_feedback binary limit now t)
      → In r t × (is_due now r ≡ true)
  unfolding due_feedback
  due_feedback-In limit now t r i = In-keep (is_due now) r t (
      sort-In (λ a b. binary a.received_at b.received_at) r (keep (is_due now) t)
        (In-take r limit (sort (λ a b. binary a.received_at b.received_at) (keep (is_due now) t))
          i))

-- A test that fails at every item.
none-all :
    (p : FeedbackRow → Bool) (t : List FeedbackRow)
    → ((r : FeedbackRow) → In r t → p r ≡ false)
    → any p t ≡ false
none-all p [] h = refl
none-all p (r ∷ t) h = ground (arith, h r (inl refl), none-all p t (λ q i. h q (inr i)))

module _ (binary : String → String → Bool) (x : String) (picked : List FeedbackRow) where
  same_id :
      (r : FeedbackRow)
      → (r.id == x) ≡ true
      → is_picked binary picked r ≡ any (λ p. p.id == x) picked
  same_id r e = ap (λ i. any (λ p. p.id == i) picked) ((eq_iff r.id x).0 e)

  -- Where the id is picked, all its rows are leased.
  update-is_free :
      (until later : ℕ) (t : List FeedbackRow)
      → any (λ p. p.id == x) picked ≡ true
      → later < until
      → any (is_free x later) (update (is_picked binary picked) (leased until) t) ≡ false
  unfolding update
  update-is_free until later [] h l = refl
  update-is_free until later (r ∷ t) h l = elim (Bool-cases (r.id == x)) [
    | inl e ↦ ground (arith, same_id r e, update-is_free until later t h l)
    | inr e ↦ elim (Bool-cases (is_picked binary picked r)) [
      | inl f ↦ ground (arith, e, f, update-is_free until later t h l)
      | inr f ↦ ground (arith, e, f, update-is_free until later t h l)
    ]
  ]

  -- The entries of the id that are handed out are there exactly if it is picked.
  handed_out :
      (t : List FeedbackRow)
      → any (λ e. e.id == x) (map entry_of (keep (is_picked binary picked) t)) ≡ true
      → any (λ p. p.id == x) picked ≡ true
  handed_out [] h = cc
  handed_out (r ∷ t) h = elim (Bool-cases (is_picked binary picked r)) [
    | inl f ↦ elim (Bool-cases (r.id == x)) [
      | inl e ↦ ground (arith, same_id r e, f)
      | inr e ↦ handed_out t (ground (arith, e, f, h))
    ]
    | inr f ↦ handed_out t (ground (arith, f, h))
  ]

-- An entry that `claimFeedback` handed out under a lease is not handed out by a second call before
-- the lease ends, whatever the limits and the second lease.
pub lease_is_exclusive :
    (binary : String → String → Bool) (limit lease_ms now again more later : ℕ) (x : String)
    (db : Database)
    → any (λ e. e.id == x) (claim_feedback binary limit lease_ms now db).0 ≡ true
    → later < now + lease_ms
    → any
        (λ e. e.id == x)
        (claim_feedback binary again more later (claim_feedback binary limit lease_ms now db).1).0
      ≡ false
unfolding claim_feedback
lease_is_exclusive binary limit lease_ms now again more later x db h l =
    let picked = due_feedback binary limit now db.feedback_outbox in
    let t = update (is_picked binary picked) (leased (now + lease_ms)) db.feedback_outbox in
    let busy =
      update-is_free binary x picked (now + lease_ms) later db.feedback_outbox
        (handed_out binary x picked db.feedback_outbox h) l in
    let second = due_feedback binary again later t in
    let unpicked =
      none-all (λ p. p.id == x) second
        (λ r i.
          let (there, due) = due_feedback-In binary again later t r i in
          ground (arith, due, any-In (is_free x later) r t busy there)) in
    elim (Bool-cases (any (λ e. e.id == x) (map entry_of (keep (is_picked binary second) t)))) [
      | inl e ↦ absurd (ground (arith, handed_out binary x second t e, unpicked))
      | inr e ↦ e
    ]
