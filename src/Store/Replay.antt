-- ===== src/Store/Replay.antt =====
-- A challenge of `MemoryStore` is used at most once, whatever else is called in between.
use onlykas.Prelude.{
  ℕ, String, ◌≡◌, refl, ◌≢◌, true, Option, none, some, List, [], ◌∷◌, arith, eq_iff, is_some, leb,
  ◌||◌, ◌<◌, ◌↔◌, inl, inr, Option-cases,
}
use onlykas.Prelude.Lists.{All}
use onlykas.Map.{get}
use onlykas.Map.Laws.{get-set, get-prune}
use onlykas.Domain.{Challenge}
use onlykas.Store.{Store}
use onlykas.Store.Auth
use onlykas.Store.Keys.{IsKeyed, challenge_id, consume_challenge-IsKeyed}
use onlykas.Store.History.{apply-IsKeyed}
use onlykas.Store.Frames.{frame}
use onlykas.Store.Op.{Op, apply, run}

abbrev pub IsSpent : Option Challenge → Type 0
IsSpent none = Unit
IsSpent (some v) = is_some v.consumed_at ≡ true

-- No call issues the challenge `id` anew.
abbrev pub Reissues : String → Op → Type 0
Reissues id (Op.create_challenge v) = v.id ≡ id
Reissues id _ = ⊥

module _ (id : String) (s : Store) where
  create-IsSpent :
      (v : Challenge)
      → v.id ≢ id
      → IsSpent (get id s.challenges)
      → IsSpent (get id (Auth.create_challenge v s).challenges)
  unfolding Auth.create_challenge
  create-IsSpent v ne h = ground (arith, eq_iff v.id id, get-set v.id id v s.challenges)

  consume-IsSpent :
      (other : String) (now : ℕ)
      → IsSpent (get id s.challenges)
      → IsSpent (get id (Auth.consume_challenge other now s).1.challenges)
  unfolding Auth.consume_challenge
  consume-IsSpent other now h = elim (Option-cases (get other s.challenges)) [
    | inl e ↦ ground arith
    | inr (v, e) ↦ ground (
      arith,
      eq_iff other id,
      get-set other id (record v { consumed_at = some now }) s.challenges,
    )
  ]

  prune-IsSpent :
      (now : ℕ)
      → IsKeyed s
      → IsSpent (get id s.challenges)
      → IsSpent (get id (Auth.prune_challenges now s).challenges)
  unfolding Auth.prune_challenges
  prune-IsSpent now k h = ground (
    arith,
    get-prune challenge_id (λ (v : Challenge). is_some v.consumed_at || leb v.expires_at now) id
        s.challenges k.challenges,
  )

apply-IsSpent :
    (id : String) (op : Op) (s : Store)
    → ¬ (Reissues id op)
    → IsKeyed s
    → IsSpent (get id s.challenges)
    → IsSpent (get id (apply op s).challenges)
unfolding apply
apply-IsSpent id (Op.create_challenge v) s fresh k h = create-IsSpent id s v fresh h
apply-IsSpent id (Op.consume_challenge other now) s fresh k h = consume-IsSpent id s other now h
apply-IsSpent id (Op.prune_challenges now) s fresh k h = prune-IsSpent id s now k h
apply-IsSpent id op s fresh k h = rw ((frame op s).challenges refl) h

run-IsSpent :
    (id : String) (ops : List Op) (s : Store)
    → All (λ op. ¬ (Reissues id op)) ops
    → IsKeyed s
    → IsSpent (get id s.challenges)
    → IsSpent (get id (run ops s).challenges)
unfolding run
run-IsSpent id [] s fresh k h = h
run-IsSpent id (op ∷ ops) s fresh k h =
    run-IsSpent id ops (apply op s) fresh.1 (apply-IsKeyed op s k)
      (apply-IsSpent id op s fresh.0 k h)

consumed-IsSpent :
    (id : String) (now : ℕ) (s : Store) {v : Challenge}
    → (Auth.consume_challenge id now s).0 ≡ some v
    → IsSpent (get id (Auth.consume_challenge id now s).1.challenges)
unfolding Auth.consume_challenge
consumed-IsSpent id now s {v} e = elim (Option-cases (get id s.challenges)) [
  | inl missing ↦ ground arith
  | inr (w, found) ↦
      ground (arith, eq_iff id id, get-set id id (record w { consumed_at = some now }) s.challenges)
]

spent_is_refused :
    (id : String) (now : ℕ) (s : Store)
    → IsSpent (get id s.challenges)
    → (Auth.consume_challenge id now s).0 ≡ none
unfolding Auth.consume_challenge
spent_is_refused id now s h = ground arith

-- In a store whose maps are keyed by their values: once `consumeChallenge` has returned the
-- challenge `id`, it returns null for `id` after any calls of the store, at any time, as long as
-- none of these calls creates a challenge of that id.
pub consume_challenge_once :
    (id : String) (now later : ℕ) (ops : List Op) (s : Store) (v : Challenge)
    → IsKeyed s
    → (Auth.consume_challenge id now s).0 ≡ some v
    → All (λ op. ¬ (Reissues id op)) ops
    → (Auth.consume_challenge id later (run ops (Auth.consume_challenge id now s).1)).0 ≡ none
consume_challenge_once id now later ops s v k e fresh =
    let s' = (Auth.consume_challenge id now s).1 in
    spent_is_refused id later (run ops s') (
      run-IsSpent id ops s' fresh (consume_challenge-IsKeyed id now s k)
        (consumed-IsSpent id now s e))

-- `consumeChallenge` returns a challenge exactly if one is stored under the id that has not been
-- consumed and that expires later; it is the stored one, marked with the time.
pub consume_challenge_iff :
    (id : String) (now : ℕ) (s : Store) (v : Challenge)
    → ((Auth.consume_challenge id now s).0 ≡ some v) ↔ (
        (w : Challenge) × (get id s.challenges ≡ some w)
        × (w.consumed_at ≡ none)
        × (now < w.expires_at)
        × (v ≡ record w { consumed_at = some now }))
unfolding Auth.consume_challenge
consume_challenge_iff id now s v = (to, from)
  where
    to :
        (Auth.consume_challenge id now s).0 ≡ some v
        → (w : Challenge) × (get id s.challenges ≡ some w)
          × (w.consumed_at ≡ none)
          × (now < w.expires_at)
          × (v ≡ record w { consumed_at = some now })
    to e = elim (Option-cases (get id s.challenges)) [
      | inl missing ↦ absurd (ground arith)
      | inr (w, found) ↦ (w, found, ground arith, ground arith, ground arith)
    ]

    from :
        (w : Challenge) × (get id s.challenges ≡ some w)
          × (w.consumed_at ≡ none)
          × (now < w.expires_at)
          × (v ≡ record w { consumed_at = some now })
        → (Auth.consume_challenge id now s).0 ≡ some v
    from h = ground arith
