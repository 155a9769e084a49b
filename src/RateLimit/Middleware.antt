-- ===== src/RateLimit/Middleware.antt =====
-- internal/transport/http/middleware/rate_limiter.go. The reply of the Redis client is a value of
-- any type: an int64 and an int are integers here, a float64 is given by its integral part, and
-- what is neither is `other`. net.SplitHostPort is a parameter.
use ffgif.Base.{
  ℕ, zero, suc, ◌+◌, ◌/◌, max, ◌==◌, Bool, false, Option, none, some, List, [], ◌∷◌, ◌++◌, Text,
  codes, if◌then◌else◌,
}
use ffgif.Base.Int.{ℤ, pos, negsuc}
use ffgif.RateLimit.Bucket

pub data Element : Type 0 where
  integer : ℤ → Element
  float : ℤ → Element
  other : Element

pub data Reply : Type 0 where
  slice : List Element → Reply
  other : Reply

-- How Redis hands the table that the script returns to the client: numbers lose their fraction.
abbrev pub truncate : ℤ → ℤ
truncate (pos n) = pos (n / 1000)
truncate (negsuc n) = elim ((n + 1) / 1000) [ zero ↦ pos 0 | suc q ↦ negsuc q ]

abbrev pub reply_of : Bucket.Reply → Reply
reply_of r = slice (
    integer (pos (if r.allowed then 1 else 0))
    ∷ integer (pos r.wait_ms)
    ∷ integer (truncate r.token)
    ∷ [])

pub record Outcome : Type 0 where
  pub allowed : Bool
  pub wait_ms : ℤ
  pub token : ℤ
  pub last_refill : ℕ

-- The headers X-RateLimit-Limit, X-RateLimit-Remaining and X-RateLimit-Reset.
pub record Headers : Type 0 where
  pub limit : ℕ
  pub remaining : ℤ
  pub reset : ℕ

pub data Answer : Type 0 where
  -- 500
  internal_error : Answer
  -- 429, with Retry-After
  too_many_requests : Headers → ℕ → Answer
  -- the rest of the chain answers
  admit : Headers → Answer

unfoldable pub to_int64 : Element → Option ℤ
to_int64 (integer n) = some n
to_int64 (float n) = some n
to_int64 other = none

abbrev is_one : ℤ → Bool
is_one (pos n) = n == 1
is_one (negsuc n) = false

unfoldable pub set_limit : Option Reply → ℕ → Option Outcome
unfolding to_int64
set_limit (some (slice (a ∷ w ∷ t ∷ more))) now = elim (to_int64 a) [
  | none ↦ none
  | some allowed ↦ elim (to_int64 w) [
    | none ↦ none
    | some wait_ms ↦ elim (to_int64 t) [
      | none ↦ none
      | some token ↦
          some (record {
            allowed = is_one allowed;
            wait_ms = wait_ms;
            token = token;
            last_refill = now;
          })
    ]
  ]
]
set_limit _ now = none

-- The whole seconds of `wait_ms`, rounded up, at least 1.
unfoldable pub retry_after : ℤ → ℕ
retry_after (pos n) = max 1 ((n + 999) / 1000)
retry_after (negsuc n) = 1

-- `Limit`, on the address that net.SplitHostPort found, if it did, and what RunScript returns for
-- a key, if it does.
unfoldable pub limit : ℕ → Option Text → (Text → Option Reply) → ℕ → Answer
unfolding set_limit retry_after
limit rate none run now = internal_error
limit rate (some ip) run now = elim (set_limit (run (codes "rate_limit:ip:" ++ ip)) now) [
  | none ↦ internal_error
  | some o ↦
      let headers : Headers = record { limit = rate; remaining = o.token; reset = o.last_refill } in
      if o.allowed then admit headers else too_many_requests headers (retry_after o.wait_ms)
]
