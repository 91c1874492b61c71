-- ===== src/RateLimit/Burst.antt =====
-- backend/src/adapters/http/rate-limit.ts: how many requests of one client are let through in one window.
use onlykas.Prelude.{
  ℕ, ◌+◌, ◌-◌, ◌≤◌, ◌<◌, String, ◌≡◌, ◌≢◌, refl, ◌∙◌, Bool, false, ◌&&◌, Option, none, some, List,
  [], ◌∷◌, arith, leb, ◌==◌, eq_iff, Option-cases, inl, inr, if◌then◌else◌, Bool-cases,
}
use onlykas.Prelude.Lists.{length, All}
use onlykas.Map.{Map, get, delete, prune}
use onlykas.Map.Laws.{get-set, get-delete}
use onlykas.RateLimit.{
  Window, RateLimiter, is_over, begin_window, drop_oldest, sweep, current_window, check,
}
use onlykas.RateLimit.Size.{check-size, length-prune}

abbrev pub Request : Type 0
Request = String × ℕ

-- How many requests of the client are let through, one after the other.
unfoldable pub served : String → List Request → RateLimiter → ℕ
served key [] l = 0
served key ((client, now) ∷ rs) l =
    let rest = served key rs (check client now l).1 in
    if (client == key) && (check client now l).0.is_allowed then rest + 1 else rest

abbrev pub requests : String → List Request → ℕ
requests key [] = 0
requests key ((client, now) ∷ rs) =
    let rest = requests key rs in if client == key then rest + 1 else rest

abbrev pub min : ℕ → ℕ → ℕ
min a b = if leb a b then a else b

drop_nothing : (max : ℕ) (m : Map Window) → length m ≤ max → drop_oldest max m ≡ m
unfolding drop_oldest
drop_nothing max [] h = refl
drop_nothing max ((k, w) ∷ m) h = ground (arith, drop_nothing max m)

module _ (gone : Window → Bool) (k : String) where
  prune_absent : (m : Map Window) → get k m ≡ none → get k (prune gone m) ≡ none
  unfolding prune get
  prune_absent [] e = refl
  prune_absent ((j, w) ∷ m) e = ground (arith, prune_absent m)

  prune_kept :
      (w : Window) (m : Map Window)
      → get k m ≡ some w
      → gone w ≡ false
      → get k (prune gone m) ≡ some w
  unfolding prune get
  prune_kept w [] e h = cc
  prune_kept w ((j, x) ∷ m) e h = ground (arith, prune_kept w m)

-- How often the client has been counted in the window that it has.
abbrev counted : Option Window → ℕ
counted none = 0
counted (some w) = w.count

-- No window of the client began before `t`.
abbrev BeginsAfter : ℕ → Option Window → Type 0
BeginsAfter t none = Unit
BeginsAfter t (some w) = t ≤ w.started_at

module _ (key : String) (t now : ℕ) (l : RateLimiter) where
  -- Within a window's length of `t`, and with room, a sweep takes nothing of the client away.
  sweep-keeps :
      length l.windows ≤ l.max_keys
      → now < t + l.window_ms
      → BeginsAfter t (get key l.windows)
      → get key (sweep now l).windows ≡ get key l.windows
  unfolding sweep
  sweep-keeps room early after =
      let m = prune (is_over l.window_ms now) l.windows in
      let smaller : length m ≤ l.max_keys =
        ground (arith, length-prune (is_over l.window_ms now) l.windows) in
      elim (Option-cases (get key l.windows)) [
        | inl e ↦
            rw (drop_nothing l.max_keys m smaller, e)
              (prune_absent (is_over l.window_ms now) key l.windows e)
        | inr (w, e) ↦
            rw (drop_nothing l.max_keys m smaller, e)
              (prune_kept (is_over l.window_ms now) key w l.windows e (ground arith))
      ]

module _ (key : String) (t now : ℕ) (l : RateLimiter) (late : t ≤ now)
    (early : now < t + l.window_ms) where
  own_window :
      BeginsAfter t (get key l.windows)
      → let w = (current_window key now l).0 in
        (w.count ≡ counted (get key l.windows)) × (t ≤ w.started_at)
  unfolding current_window
  own_window after = elim (Option-cases (get key l.windows)) [
    | inl e ↦ ground arith
    | inr (w, e) ↦ ground arith
  ]

  other_window :
      (client : String) → client ≢ key → get key (current_window client now l).1 ≡ get key l.windows
  unfolding current_window
  other_window client ne =
      let w : Window = record { started_at = now; count = 0 } in
      let fresh : get key (begin_window client now l.windows).1 ≡ get key l.windows = ground (
        arith,
        eq_iff client key,
        get-set client key w (delete client l.windows),
        get-delete client key l.windows,
      ) in
      elim (Option-cases (get client l.windows)) [
        | inl e ↦ ground (arith, fresh)
        | inr (x, e) ↦ ground (arith, fresh)
      ]

module _ (key : String) (t now : ℕ) (l : RateLimiter) (late : t ≤ now)
    (early : now < t + l.window_ms) (room : length l.windows ≤ l.max_keys)
    (after : BeginsAfter t (get key l.windows)) where
  own_check :
      let (verdict, l') = check key now l in
      (verdict.is_allowed ≡ leb (counted (get key l.windows) + 1) l.limit)
      × (counted (get key l'.windows) ≡ counted (get key l.windows) + 1)
      × BeginsAfter t (get key l'.windows)
  unfolding check sweep
  own_check =
      let (w, windows) = current_window key now (sweep now l) in
      ground (
        arith,
        sweep-keeps key t now l room early after,
        own_window key t now (sweep now l) late early,
        get-set key key (record w { count = w.count + 1 }) windows,
        eq_iff key key,
      )

  other_check :
      (client : String) → client ≢ key → get key (check client now l).1.windows ≡ get key l.windows
  unfolding check sweep
  other_check client ne =
      let (w, windows) = current_window client now (sweep now l) in
      ground (
        arith,
        sweep-keeps key t now l room early after,
        other_window key t now (sweep now l) late early client ne,
        get-set client key (record w { count = w.count + 1 }) windows,
        eq_iff client key,
      )

-- The time lies in a window's length from `t` on.
abbrev pub IsIn : ℕ → ℕ → Request → Type 0
IsIn t window_ms (client, now) = (t ≤ now) × (now < t + window_ms)

same_settings :
    (key : String) (now : ℕ) (l : RateLimiter)
    → let t = (check key now l).1 in
      (t.limit ≡ l.limit) × (t.window_ms ≡ l.window_ms) × (t.max_keys ≡ l.max_keys)
unfolding check
same_settings key now l = (refl, refl, refl)

-- The rest of the requests, after the first.
served_from :
    (key : String) (t limit window_ms max : ℕ) (rs : List Request) (l : RateLimiter)
    → l.limit ≡ limit
    → l.window_ms ≡ window_ms
    → l.max_keys ≡ max
    → All (IsIn t window_ms) rs
    → length l.windows + length rs ≤ max
    → BeginsAfter t (get key l.windows)
    → served key rs l ≡ min (requests key rs) (limit - counted (get key l.windows))
unfolding served
served_from key t limit window_ms max [] l hl hw hm inside room after = ground arith
served_from key t limit window_ms max ((client, now) ∷ rs) l hl hw hm inside room after =
    let (sl, sw, sm) = same_settings client now l in
    let rest =
      served_from key t limit window_ms max rs (check client now l).1 (sl ∙ hl) (sw ∙ hw) (sm ∙ hm)
        inside.1 (ground (arith, check-size client now l)) in
    let early : now < t + l.window_ms = ground (arith, inside) in
    let fits : length l.windows ≤ l.max_keys = ground (arith, room) in
    elim (Bool-cases (client == key)) [
      | inl same ↦
          let eq : client ≡ key = (eq_iff client key).0 same in
          let (verdict, count, begun) = own_check key t now l (inside.0.0) early fits after in
          ground (arith, verdict, count, rest (rw eq begun), eq)
      | inr other ↦
          let ne : client ≢ key = ground (arith, eq_iff client key) in
          let kept = other_check key t now l (inside.0.0) early fits after client ne in
          ground (arith, kept, rest (rw kept after))
    ]

-- Of the requests that come within one window's length from a time on, by any clients in any order,
-- a client that the limiter has no window for gets as many through as the limit says, or all of its
-- own if these are fewer, if the windows that are kept and the requests together are no more than
-- the bound on the number of clients.
pub served_in_window :
    (key : String) (t : ℕ) (rs : List Request) (l : RateLimiter)
    → get key l.windows ≡ none
    → All (IsIn t l.window_ms) rs
    → length l.windows + length rs ≤ l.max_keys
    → served key rs l ≡ min (requests key rs) l.limit
served_in_window key t rs l fresh inside room =
    let all =
      served_from key t l.limit l.window_ms l.max_keys rs l refl refl refl inside room
        (rw fresh tt) in
    ground (arith, all, fresh)
