-- ===== src/RateLimit/Size.antt =====
-- backend/src/adapters/http/rate-limit.ts: the number of clients that the limiter remembers.
use onlykas.Prelude.{
  ℕ, ◌+◌, ◌≤◌, String, ◌≡◌, Bool, some, [], ◌∷◌, arith, Option-cases, eq_iff, inl, inr,
}
use onlykas.Prelude.Lists.{length}
use onlykas.Map.{Map, get, set, delete, prune}
use onlykas.Map.Laws.{get-set}
use onlykas.RateLimit.{
  begin_window, Window, RateLimiter, is_over, drop_oldest, sweep, current_window, check,
}

module _ {V : Type 0} where
  pub length-set : (k : String) (v : V) (m : Map V) → length (set k v m) ≤ length m + 1
  unfolding set
  length-set k v [] = omega arith
  length-set k v ((j, w) ∷ m) = ground (arith, length-set k v m)

  pub length-prune : (gone : V → Bool) (m : Map V) → length (prune gone m) ≤ length m
  unfolding prune
  length-prune gone [] = omega arith
  length-prune gone ((j, w) ∷ m) = ground (arith, length-prune gone m)

  pub length-delete : (k : String) (m : Map V) → length (delete k m) ≤ length m
  unfolding delete
  length-delete k [] = omega arith
  length-delete k ((j, w) ∷ m) = ground (arith, length-delete k m)

  set_present :
      (k : String) (v w : V) (m : Map V) → get k m ≡ some w → length (set k v m) ≡ length m
  unfolding set get
  set_present k v w [] e = cc
  set_present k v w ((j, x) ∷ m) e = ground (arith, set_present k v w m)

length-drop_oldest :
    (max : ℕ) (m : Map Window)
    → (length (drop_oldest max m) ≤ max) × (length (drop_oldest max m) ≤ length m)
unfolding drop_oldest
length-drop_oldest max [] = ground arith
length-drop_oldest max ((k, w) ∷ m) = ground (arith, length-drop_oldest max m)

module _ (key : String) (now : ℕ) (l : RateLimiter) where
  -- The current window is in the map, which has grown by one at most.
  pub current-present : get key (current_window key now l).1 ≡ some (current_window key now l).0
  unfolding current_window
  current-present = elim (Option-cases (get key l.windows)) [
    | inl e ↦ rw (e, current_window) (begun-present)
    | inr (w, e) ↦ ground (arith, begun-present)
  ]
    where
      begun-present :
          get key (begin_window key now l.windows).1 ≡ some (begin_window key now l.windows).0
      begun-present =
          let w : Window = record { started_at = now; count = 0 } in
          ground (arith, get-set key key w (delete key l.windows), eq_iff key key)

  length-current : length (current_window key now l).1 ≤ length l.windows + 1
  unfolding current_window
  length-current =
      let w : Window = record { started_at = now; count = 0 } in
      elim (Option-cases (get key l.windows)) [
        | inl e ↦
            ground (arith, length-set key w (delete key l.windows), length-delete key l.windows)
        | inr (x, e) ↦
            ground (arith, length-set key w (delete key l.windows), length-delete key l.windows)
      ]

pub length-sweep :
    (now : ℕ) (l : RateLimiter)
    → (length (sweep now l).windows ≤ l.max_keys)
      × (length (sweep now l).windows ≤ length l.windows)
unfolding sweep
length-sweep now l = ground (
  arith,
  length-drop_oldest l.max_keys (prune (is_over l.window_ms now) l.windows),
  length-prune (is_over l.window_ms now) l.windows,
)

-- After a check the limiter remembers at most one client more than its bound, and at most one more
-- than before.
pub check-size :
    (key : String) (now : ℕ) (l : RateLimiter)
    → let t = (check key now l).1 in
      (length t.windows ≤ l.max_keys + 1) × (length t.windows ≤ length l.windows + 1)
unfolding check
check-size key now l =
    let (w, windows) = current_window key now (sweep now l) in
    ground (
      arith,
      length-sweep now l,
      length-current key now (sweep now l),
      set_present key (record w { count = w.count + 1 }) w windows
          (current-present key now (sweep now l)),
    )
