-- ===== src/RateLimit/Retry.antt =====
-- The header Retry-After against the script: the middleware and Redis together.
use ffgif.Base.{
  ℕ, ◌+◌, ◌*◌, ◌/◌, ◌≤◌, ◌<◌, max, ◌≡◌, ◌∙◌, true, false, Bool-cases, inl, inr, Option, some, arith,
  Text, leb,
}
use ffgif.RateLimit.Bucket
use ffgif.RateLimit.Bucket.{Bucket}
use ffgif.RateLimit.Bounds
use ffgif.RateLimit.Middleware
use ffgif.RateLimit.Middleware.{Answer, Headers, Reply, too_many_requests, admit}

enough : (w : ℕ) → w ≤ 1000 * max 1 ((w + 999) / 1000)
enough w = ground arith

module _ (capacity rate : ℕ) (ip : Text) where
  -- The middleware's answer at a time, when Redis holds a bucket.
  abbrev pub answer : Option Bucket → ℕ → Answer
  answer b now =
      Middleware.limit rate (some ip)
        (λ key. some (Middleware.reply_of ((Bucket.run_script capacity rate b now).0))) now

  refused_reply :
      (b : Option Bucket) (now s : ℕ) (headers : Headers)
      → answer b now ≡ too_many_requests headers s
      → ((Bucket.run_script capacity rate b now).0.allowed ≡ false)
        × (s ≡ max 1 (((Bucket.run_script capacity rate b now).0.wait_ms + 999) / 1000))
  unfolding Middleware.limit
  refused_reply b now s headers h =
      elim (Bool-cases ((Bucket.run_script capacity rate b now).0.allowed)) [
        | inl e ↦ ground arith
        | inr e ↦ (e, ground arith)
      ]

  admitted_reply :
      (b : Option Bucket) (now : ℕ)
      → (Bucket.run_script capacity rate b now).0.allowed ≡ true
      → (headers : Headers) × (answer b now ≡ admit headers)
  unfolding Middleware.limit
  admitted_reply b now h = (
    record {
      limit = rate;
      remaining = Middleware.truncate ((Bucket.run_script capacity rate b now).0.token);
      reset = now;
    },
    ground arith,
  )

  -- A client that is told 429 with Retry-After, and waits that many seconds before its next
  -- request, is admitted, whatever the bucket held, if the capacity and the rate are positive and
  -- no other request of its address comes in between.
  pub retry_after-admits :
      (t last now later s : ℕ) (headers : Headers)
      → 0 < rate
      → 0 < capacity
      → last ≤ now
      → answer (some (Bounds.at capacity rate t last)) now ≡ too_many_requests headers s
      → now + 1000 * s ≤ later
      → (headers' : Headers) × (answer
            (some ((Bucket.run_script capacity rate (some (Bounds.at capacity rate t last)) now).1))
            later
          ≡ admit headers')
  retry_after-admits t last now later s headers pos_rate pos_cap h refused wait =
      let b = some (Bounds.at capacity rate t last) in
      let w = (Bucket.run_script capacity rate b now).0.wait_ms in
      let (not_allowed, told) = refused_reply b now s headers refused in
      let exact =
        Bounds.wait-exact capacity rate t last now later pos_rate pos_cap h (omega arith)
          not_allowed in
      let long : leb (now + w) later ≡ true = ground (arith, told, enough w) in
      admitted_reply _ later (exact ∙ long)
