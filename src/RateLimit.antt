-- ===== src/RateLimit.antt =====
-- backend/src/adapters/http/rate-limit.ts: the fixed-window rate limiter. The clock is an argument. The
-- difference of two times is compared as a sum, since it may fall below zero in the source.
pub mod Size
pub mod Burst
use onlykas.Prelude.{
  ℕ, ◌+◌, ◌-◌, ◌/◌, String, Bool, Option, none, some, List, [], ◌∷◌, leb, ltb, if◌then◌else◌,
}
use onlykas.Prelude.Lists.{length}
use onlykas.Map.{Map, get, set, delete, prune}

pub record Window : Type 0 where
  pub started_at : ℕ
  pub count : ℕ

pub record RateLimiter : Type 0 where
  pub limit : ℕ
  pub window_ms : ℕ
  pub max_keys : ℕ
  pub windows : Map Window

pub record Verdict : Type 0 where
  pub is_allowed : Bool
  pub retry_after_seconds : ℕ

-- `now - window.startedAt >= this.windowMs`
abbrev pub is_over : ℕ → ℕ → Window → Bool
is_over window_ms now w = leb (w.started_at + window_ms) now

-- `while (size > maxKeys) delete(keys().next().value)`: the keys of a map are distinct, so the oldest
-- entry is the first one.
unfoldable pub drop_oldest : ℕ → Map Window → Map Window
drop_oldest max [] = []
drop_oldest max ((k, w) ∷ m) =
    let rest = drop_oldest max m in if ltb max (length ((k, w) ∷ m)) then rest else (k, w) ∷ m

unfoldable pub sweep : ℕ → RateLimiter → RateLimiter
sweep now l = record l {
  windows = drop_oldest l.max_keys (prune (is_over l.window_ms now) l.windows);
}

-- `window = { startedAt: now, count: 0 }; delete(key); set(key, window)`
abbrev pub begin_window : String → ℕ → Map Window → Window × Map Window
begin_window key now m =
    let w : Window = record { started_at = now; count = 0 } in (w, set key w (delete key m))

-- The windows with that of the key, begun anew if there is none or it is over.
unfoldable pub current_window : String → ℕ → RateLimiter → Window × Map Window
current_window key now l = elim (get key l.windows) [
  | none ↦ begin_window key now l.windows
  | some w ↦ if is_over l.window_ms now w then begin_window key now l.windows else (w, l.windows)
]

-- `Math.max(1, Math.ceil(ms / 1000))`
abbrev pub seconds_left : ℕ → ℕ
seconds_left ms = let s = (ms + 999) / 1000 in if leb 1 s then s else 1

unfoldable pub check : String → ℕ → RateLimiter → Verdict × RateLimiter
check key now l =
    let swept = sweep now l in
    let (w, windows) = current_window key now swept in
    let counted = record w { count = w.count + 1 } in
    let allowed = leb counted.count l.limit in
    (
      record {
        is_allowed = allowed;
        retry_after_seconds =
            if allowed then 0 else seconds_left (w.started_at + l.window_ms - now);
      },
      record l { windows = set key counted windows },
    )
