-- ===== src/Tests/Limits.antt =====
-- The rate limiter at concrete requests.
use onlykas.Prelude.{◌≡◌, refl, List, [], ◌∷◌, arith}
use onlykas.Prelude.Lists.{All}
use onlykas.Map.{get}
use onlykas.RateLimit.{RateLimiter}
use onlykas.RateLimit.Burst.{Request, IsIn, served, requests, min, served_in_window}

abbrev limiter : RateLimiter
limiter = record { limit = 2; window_ms = 1000; max_keys = 10; windows = [] }

abbrev burst : List Request
burst = ("a", 100) ∷ ("b", 150) ∷ ("a", 200) ∷ ("a", 900) ∷ ("a", 1050) ∷ []

inside : All (IsIn 100 1000) burst
inside = ground arith

served_in_window_example : served "a" burst limiter ≡ min (requests "a" burst) 2
unfolding get
served_in_window_example = served_in_window "a" 100 burst limiter refl inside (omega arith)
