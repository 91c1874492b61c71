-- ===== src/Membership/Settle.antt =====
-- backend/src/app.ts: the ways that a finalization of a membership can go.
use onlykas.Prelude.{
  ℕ, String, ◌≡◌, refl, true, Option, none, some, arith, eq_iff, ◌⊎◌, inl, inr, Option-cases,
}
use onlykas.Domain.{MembershipKind, PreparedMembershipRecord, PaymentSubmission}
use onlykas.Checkout.{accepted_transaction}
use onlykas.Store.{Store}
use onlykas.Store.Memberships.{get_prepared_membership}
use onlykas.Membership.{Attempt, MembershipTransactions}
use onlykas.Membership.Finalize.{
  FinalizeAnswer, not_found, failed, stale, same_kind, party, find_prepared, forget, undecided,
  settle,
}

same_kind_iff : (k l : MembershipKind) → same_kind k l ≡ true → k ≡ l
same_kind_iff MembershipKind.offer MembershipKind.offer h = refl
same_kind_iff MembershipKind.purchase MembershipKind.purchase h = refl
same_kind_iff MembershipKind.update MembershipKind.update h = refl
same_kind_iff MembershipKind.cancel MembershipKind.cancel h = refl
same_kind_iff _ _ h = cc

-- The record is there, unexpired, of the kind, and the wallet is the one that may finalize it.
abbrev pub IsPreparedFor :
    MembershipKind → String → String → ℕ → Store → PreparedMembershipRecord → Type 0
IsPreparedFor kind id address now s v =
    (get_prepared_membership id now s ≡ some v) × (v.kind ≡ kind) × (party kind v ≡ address)

find_prepared-IsPreparedFor :
    (kind : MembershipKind) (id address : String) (now : ℕ) (s : Store)
    (v : PreparedMembershipRecord)
    → find_prepared kind id address now s ≡ some v
    → IsPreparedFor kind id address now s v
unfolding find_prepared
find_prepared-IsPreparedFor kind id address now s v h =
    elim (Option-cases (get_prepared_membership id now s)) [
      | inl e ↦ absurd (ground (arith, e, h))
      | inr (w, e) ↦ ground (arith, e, h, same_kind_iff w.kind kind, eq_iff (party kind w) address)
    ]

abbrev pub Settled : Type 0
Settled = FinalizeAnswer × Store

-- The submission of the record was answered, and that answer taken further.
pub record IsAnswered (id : String) (clock : ℕ) (gateway : MembershipTransactions)
    (kind : MembershipKind) (address : String) (now : ℕ)
    (accept : PreparedMembershipRecord → String → Store → Settled) (s : Store) (r : Settled)
    : Type 0 where
  pub v : PreparedMembershipRecord
  pub a : PaymentSubmission
  pub body : String
  pub prepared : IsPreparedFor kind id address now s v
  pub submitted : gateway.submit v body ≡ Attempt.succeeds a
  pub outcome :
      ((accepted_transaction a ≡ none) × (r ≡ undecided id clock a s))
      ⊎ ((t : String) × (accepted_transaction a ≡ some t) × (r ≡ accept v t s))

module _ (id : String) (clock : ℕ) (gateway : MembershipTransactions) (kind : MembershipKind)
    (address : String) (signed : Option String) (now : ℕ)
    (accept : PreparedMembershipRecord → String → Store → Settled) (s : Store) where
  abbrev pub settled : Settled
  settled = settle id clock gateway kind address signed now accept s

  -- Nothing is found, the call throws, the covenant has moved, or the gateway answers.
  pub settle-cases :
      (settled ≡ (not_found, s))
      ⊎ ((settled ≡ (failed, s))
          ⊎ ((settled ≡ (stale, forget id s))
              ⊎ IsAnswered id clock gateway kind address now accept s settled))
  unfolding settle
  settle-cases = elim (Option-cases (find_prepared kind id address now s)) [
    | inl e ↦ inl (rw (e, settle) refl)
    | inr (v, e) ↦ elim (Option-cases signed) [
      | inl f ↦ inr (inl (rw (e, f, settle) refl))
      | inr (body, f) ↦ answered v body e f (gateway.submit v body) refl
    ]
  ]
    where
      answered :
          (v : PreparedMembershipRecord) (body : String)
          → find_prepared kind id address now s ≡ some v
          → signed ≡ some body
          → (x : Attempt PaymentSubmission) → gateway.submit v body ≡ x
          → (settled ≡ (not_found, s))
            ⊎ ((settled ≡ (failed, s))
                ⊎ ((settled ≡ (stale, forget id s))
                    ⊎ IsAnswered id clock gateway kind address now accept s settled))
      answered v body e f Attempt.state_changed g = inr (inr (inl (rw (e, f, g, settle) refl)))
      answered v body e f Attempt.lacks_funds g = inr (inl (rw (e, f, g, settle) refl))
      answered v body e f Attempt.fails g = inr (inl (rw (e, f, g, settle) refl))
      answered v body e f (Attempt.succeeds a) g = inr (
          inr (
            inr (record {
              v = v;
              a = a;
              body = body;
              prepared = find_prepared-IsPreparedFor kind id address now s v e;
              submitted = g;
              outcome = elim (Option-cases (accepted_transaction a)) [
                | inl k ↦ inl (k, rw (e, f, g, k, settle) refl)
                | inr (t, k) ↦ inr (t, k, rw (e, f, g, k, settle) refl)
              ];
            })))
