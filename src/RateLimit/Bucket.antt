-- ===== src/RateLimit/Bucket.antt =====
-- The Lua script of internal/infra/redis/rate_limiter/rate_limiter.go. Tokens are counted in
-- thousandths, so that `diff * rate` with the time in milliseconds is a whole number; the script
-- computes the same sums in floating point. The time may run backwards between two calls.
use ffgif.Base.{
  ℕ, ◌+◌, ◌-◌, ◌*◌, ◌/◌, max, Bool, true, false, Option, none, some, ltb, if◌then◌else◌,
}
use ffgif.Base.Int.{ℤ, pos, negsuc, pos_part, neg_part, sub_ℕ, ◌+ℤ◌, leb_ℤ}

-- The hash of a key, and when PEXPIRE lets it go.
pub record Bucket : Type 0 where
  pub token : ℤ
  pub last_refill : ℕ
  pub expires : ℕ

-- What the script returns: whether the request is allowed, how long to wait, the tokens left.
pub record Reply : Type 0 where
  pub allowed : Bool
  pub wait_ms : ℕ
  pub token : ℤ

abbrev pub one : ℤ
one = pos 1000

-- math.ceil(a / b)
abbrev pub ceil_div : ℕ → ℕ → ℕ
ceil_div a b = (a + b - 1) / b

module _ (capacity rate : ℕ) where
  abbrev pub full : ℤ
  full = pos (1000 * capacity)

  abbrev pub ttl : ℕ
  ttl = max (ceil_div (1000 * capacity) rate) 6000

  -- The tokens after the refill: those of the bucket, if it is there, and what the time since has
  -- added, up to the capacity.
  unfoldable pub refilled : Option Bucket → ℕ → ℤ
  unfolding ◌+ℤ◌
  refilled none now = full
  refilled (some b) now =
      let more = b.token +ℤ sub_ℕ (now * rate) (b.last_refill * rate) in
      if leb_ℤ full more then full else more

  -- 1 - token, in thousandths
  abbrev pub missing : ℤ → ℕ
  missing t = 1000 + neg_part t - pos_part t

  -- The script on the entry that Redis holds.
  unfoldable pub script : Option Bucket → ℕ → Reply × Bucket
  unfolding refilled ◌+ℤ◌
  script b now =
      let token = refilled b now in
      if leb_ℤ one token
      then (
        record { allowed = true; wait_ms = 0; token = token +ℤ negsuc 999 },
        record { token = token +ℤ negsuc 999; last_refill = now; expires = now + ttl },
      )
      else (
        record { allowed = false; wait_ms = ceil_div (missing token) rate; token = token },
        record { token = token; last_refill = now; expires = now + ttl },
      )

  -- Redis gives an entry until it expires.
  unfoldable pub live : Option Bucket → ℕ → Option Bucket
  live none now = none
  live (some b) now = if ltb now b.expires then some b else none

  -- One run of the script on a key.
  unfoldable pub run_script : Option Bucket → ℕ → Reply × Bucket
  unfolding live script
  run_script b now = script (live b now) now
