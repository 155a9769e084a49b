-- ===== src/RateLimit/Bounds.antt =====
-- How many requests a bucket admits.
use native.Mathlib.Nat.{div-add-mod, mod-lt}
use ffgif.Base.{
  min, ap, Bool-cases, inl, inr, sym, ◌∙◌, ℕ, ◌+◌, ◌-◌, ◌*◌, ◌≤◌, ◌<◌, ◌≡◌, false, Option, none,
  some, List, [], ◌∷◌, arith, ltb, leb, if◌then◌else◌,
}
use ffgif.Base.Int.{pos}
use ffgif.RateLimit.Bucket
use ffgif.RateLimit.Bucket.{Bucket, Reply}

scale : (a b r : ℕ) → a ≤ b → a * r ≤ b * r
scale a b r h = grind arith

le-ceil_div : (a r : ℕ) → 0 < r → a ≤ Bucket.ceil_div a r * r
le-ceil_div a r h = grind (arith, div-add-mod, mod-lt)

ceil_div-le : (a r d : ℕ) → 0 < r → a ≤ d * r → Bucket.ceil_div a r ≤ d
ceil_div-le a r d h le = grind (arith, div-add-mod, mod-lt)

split : (d now r : ℕ) → (now + d) * r ≡ now * r + d * r
split d now r = grind arith

leb_iff : (a b c d : ℕ) → (a ≤ b → c ≤ d) → (c ≤ d → a ≤ b) → leb a b ≡ leb c d
leb_iff a b c d f g = ground arith

module _ (capacity rate : ℕ) where
  -- A bucket of `t` thousandths that was last written at a time.
  abbrev pub at : ℕ → ℕ → Bucket
  at t last = record {
    token = pos t;
    last_refill = last;
    expires = last + Bucket.ttl capacity rate;
  }

  abbrev level : ℕ → ℕ → ℕ → ℕ
  level t last now = min (1000 * capacity) (t + (now * rate - last * rate))

  -- The thousandths that a run leaves, and whether it admits the request.
  abbrev pub left_after : ℕ → ℕ → ℕ → ℕ
  left_after t last now =
      if leb 1000 (level t last now) then level t last now - 1000 else level t last now

  -- By the time an entry expires the bucket is full.
  full_by_expiry :
      (last now : ℕ)
      → 0 < rate
      → last + Bucket.ttl capacity rate ≤ now
      → 1000 * capacity ≤ now * rate - last * rate
  full_by_expiry last now pos_rate h =
      let wait = Bucket.ceil_div (1000 * capacity) rate in
      let covered = le-ceil_div (1000 * capacity) rate pos_rate in
      let scaled = scale (last + wait) now rate (omega arith) in grind arith

  refilled_lem :
      (t last now : ℕ)
      → last ≤ now
      → Bucket.refilled capacity rate (some (at t last)) now ≡ pos (level t last now)
  unfolding Bucket.refilled
  refilled_lem t last now h = ground (arith, scale last now rate h)

  expired_lem :
      (t last now : ℕ)
      → 0 < rate
      → ltb now (last + Bucket.ttl capacity rate) ≡ false
      → Bucket.refilled capacity rate none now ≡ pos (level t last now)
  unfolding Bucket.refilled
  expired_lem t last now pos_rate e =
      let late : last + Bucket.ttl capacity rate ≤ now = ground arith in
      ap pos (omega (arith, full_by_expiry last now pos_rate late))

  refilled-live :
      (t last now : ℕ)
      → 0 < rate
      → last ≤ now
      → Bucket.refilled capacity rate (Bucket.live capacity rate (some (at t last)) now) now
        ≡ pos (level t last now)
  unfolding Bucket.live
  refilled-live t last now pos_rate h =
      elim (Bool-cases (ltb now (last + Bucket.ttl capacity rate))) [
        | inl e ↦ rw e (refilled_lem t last now h)
        | inr e ↦ rw e (expired_lem t last now pos_rate e)
      ]

  -- One run at a time not before the last one, with the expiry of the entry taken into account.
  run_lem :
      (t last now : ℕ)
      → 0 < rate
      → last ≤ now
      → ((Bucket.run_script capacity rate (some (at t last)) now).1
          ≡ at (left_after t last now) now)
        × ((Bucket.run_script capacity rate (some (at t last)) now).0.allowed
            ≡ leb 1000 (level t last now))
  unfolding Bucket.run_script
  run_lem t last now pos_rate h = ground (arith, refilled-live t last now pos_rate h)

  -- How many of the requests at the given times are admitted.
  pub admitted : Option Bucket → List ℕ → ℕ
  unfolding Bucket.run_script
  admitted b [] = 0
  admitted b (now ∷ later) =
      let (reply, b') = Bucket.run_script capacity rate b now in
      (if reply.allowed then 1 else 0) + admitted (some b') later

  -- The times do not run backwards, from a first one on.
  abbrev pub Ascends : ℕ → List ℕ → Type 0
  Ascends from [] = Unit
  Ascends from (t ∷ ts) = (from ≤ t) × Ascends t ts

  abbrev pub last_of : ℕ → List ℕ → ℕ
  last_of from [] = from
  last_of from (t ∷ ts) = last_of t ts

  Ascends-last_of : (from : ℕ) (ts : List ℕ) → Ascends from ts → from ≤ last_of from ts
  Ascends-last_of from [] h = omega arith
  Ascends-last_of from (t ∷ ts) h = omega (arith, Ascends-last_of t ts h.1)

  admitted-le :
      (t last : ℕ) (ts : List ℕ)
      → 0 < rate
      → Ascends last ts
      → 1000 * admitted (some (at t last)) ts ≤ t + (last_of last ts * rate - last * rate)
  unfolding admitted
  admitted-le t last [] pos_rate h = omega arith
  admitted-le t last (now ∷ ts) pos_rate h =
      let (next, allowed) = run_lem t last now pos_rate h.0 in
      let later = admitted-le (left_after t last now) now ts pos_rate h.1 in
      rw (next, allowed)
        (ground (
          arith,
          later,
          scale last now rate h.0,
          scale now (last_of now ts) rate (Ascends-last_of now ts h.1),
        ))

  first_lem :
      (now : ℕ)
      → Bucket.run_script capacity rate none now
        ≡ Bucket.run_script capacity rate (some (at (1000 * capacity) now)) now
  unfolding Bucket.run_script Bucket.live Bucket.refilled
  first_lem now = ground arith

  admitted-first :
      (t : ℕ) (ts : List ℕ)
      → admitted none (t ∷ ts) ≡ admitted (some (at (1000 * capacity) t)) (t ∷ ts)
  unfolding admitted
  admitted-first t ts =
      ap (λ (r : Reply × Bucket). (if r.0.allowed then 1 else 0) + admitted (some r.1) ts)
        (first_lem t)

  -- The rate limit: of the requests of one address, at times that do not run backwards, no more
  -- are admitted than the capacity and what the rate has refilled between the first and the last,
  -- however often the entry expires in Redis on the way, if the rate is positive. Tokens are in
  -- thousandths, times in milliseconds.
  pub admitted-bounded :
      (t : ℕ) (ts : List ℕ)
      → 0 < rate
      → Ascends t ts
      → 1000 * admitted none (t ∷ ts) ≤ 1000 * capacity + (last_of t ts * rate - t * rate)
  admitted-bounded t ts pos_rate h =
      let bound : 1000 * admitted (some (at (1000 * capacity) t)) (t ∷ ts)
          ≤ 1000 * capacity + (last_of t ts * rate - t * rate) =
        admitted-le (1000 * capacity) t (t ∷ ts) pos_rate (omega arith, h) in
      rw (admitted-first t ts) bound

  refused_level :
      (t last now : ℕ)
      → 0 < rate
      → last ≤ now
      → (Bucket.run_script capacity rate (some (at t last)) now).0.allowed ≡ false
      → level t last now < 1000
  refused_level t last now pos_rate h refused =
      let (_, allowed) = run_lem t last now pos_rate h in
      let no : leb 1000 (level t last now) ≡ false = sym allowed ∙ refused in ground arith

  wait_lem :
      (t last now : ℕ)
      → 0 < rate
      → last ≤ now
      → level t last now < 1000
      → (Bucket.run_script capacity rate (some (at t last)) now).0.wait_ms
        ≡ Bucket.ceil_div (1000 - level t last now) rate
  unfolding Bucket.run_script
  wait_lem t last now pos_rate h low = ground (arith, refilled-live t last now pos_rate h)

  reach_lem :
      (l now later : ℕ)
      → 0 < rate
      → 0 < capacity
      → now ≤ later
      → l < 1000
      → leb 1000 (min (1000 * capacity) (l + (later * rate - now * rate)))
        ≡ leb (now + Bucket.ceil_div (1000 - l) rate) later
  reach_lem l now later pos_rate pos_cap h low =
      let d = later - now in
      let moved : later * rate ≡ now * rate + d * rate =
        ap (λ m. m * rate) (omega arith) ∙ split d now rate in
      leb_iff _ _ _ _
        (λ le.
          let small = ceil_div-le (1000 - l) rate d pos_rate (omega (arith, moved)) in omega arith)
        (λ le.
          let big = le-ceil_div (1000 - l) rate pos_rate in
          let more = scale (Bucket.ceil_div (1000 - l) rate) d rate (omega arith) in
          omega (arith, moved))

  -- A refused request is told the right time to wait, if the rate and the capacity are positive
  -- and the times do not run backwards: on a bucket that nobody else draws from, a request after
  -- at least `wait_ms` milliseconds is admitted, and one before that is refused.
  pub wait-exact :
      (t last now later : ℕ)
      → 0 < rate
      → 0 < capacity
      → last ≤ now
      → now ≤ later
      → (Bucket.run_script capacity rate (some (at t last)) now).0.allowed ≡ false
      → (Bucket.run_script capacity rate
          (some ((Bucket.run_script capacity rate (some (at t last)) now).1))
          later).0.allowed
        ≡ leb (now + (Bucket.run_script capacity rate (some (at t last)) now).0.wait_ms) later
  wait-exact t last now later pos_rate pos_cap h h' refused =
      let low = refused_level t last now pos_rate h refused in
      let (next, _) = run_lem t last now pos_rate h in
      let (_, admits) = run_lem (left_after t last now) now later pos_rate h' in
      let kept : left_after t last now ≡ level t last now = ground (arith, low) in
      rw (next, admits, kept, wait_lem t last now pos_rate h low)
        (reach_lem (level t last now) now later pos_rate pos_cap h' low)
