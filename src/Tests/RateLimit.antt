-- ===== src/Tests/RateLimit.antt =====
-- The theorems on the rate limiter at concrete buckets: a capacity of 2 and a rate of 3 a second.
use ffgif.Base.{◌≡◌, refl, none, some, [], ◌∷◌, ◌+◌, ◌*◌, ◌-◌, ◌≤◌, arith, codes}
use ffgif.Base.Int.{pos}
use ffgif.RateLimit.Bucket
use ffgif.RateLimit.Bounds
use ffgif.RateLimit.Middleware
use ffgif.RateLimit.Middleware.{admit}
use ffgif.RateLimit.Retry

admitted-bounded_example :
    1000 * Bounds.admitted 2 3 none (10 ∷ 20 ∷ 30 ∷ 900 ∷ [])
    ≤ 2000 + (Bounds.last_of 2 3 10 (20 ∷ 30 ∷ 900 ∷ []) * 3 - 10 * 3)
admitted-bounded_example =
    Bounds.admitted-bounded 2 3 10 (20 ∷ 30 ∷ 900 ∷ []) (omega arith)
      (omega arith, (omega arith, (omega arith, tt)))

retry_after-admits_example :
    (headers : Middleware.Headers) × (Retry.answer 2 3
        (codes "1.2.3.4")
        (some ((Bucket.run_script 2 3 (some (Bounds.at 2 3 100 7)) 10).1))
        1010
      ≡ admit headers)
unfolding Middleware.limit Bucket.run_script
retry_after-admits_example =
    Retry.retry_after-admits 2 3 (codes "1.2.3.4") 100 7 10 1010 1
      (record { limit = 3; remaining = pos 0; reset = 10 }) (omega arith) (omega arith)
      (omega arith) refl (omega arith)
