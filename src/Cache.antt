-- ===== src/Cache.antt =====
-- internal/infra/redis/cache/cache.go over a Redis that keeps an entry until it expires.
use ffgif.Base.{
  ℕ, ◌+◌, Bool, true, Option, none, some, List, [], ◌∷◌, Text, text_eq, ltb, ◌==◌, if◌then◌else◌,
}
use ffgif.World.{CacheEntry, Io, ok, err, gets, of_result, ◌>>=◌, attempt, known, cache_miss}

abbrev pub is_live : ℕ → CacheEntry → Bool
is_live now e = elim e.expires [ none ↦ true | some t ↦ ltb now t ]

-- The entry of a key that Redis would answer with: the last one written, unless it has expired.
unfoldable pub lookup : Text → ℕ → List CacheEntry → Option Text
lookup key now [] = none
lookup key now (e ∷ es) =
    if text_eq key e.key then (if is_live now e then some e.value else none) else lookup key now es

-- A write hides what was there before. An expiry of 0 is none.
unfoldable pub set : Text → Text → ℕ → Io (Unit {0})
unfolding attempt
set key value expire = attempt λ w.
    let until : Option ℕ = if expire == 0 then none else some (w.now + expire) in
    (ok tt, record w { cache = record { key = key; value = value; expires = until } ∷ w.cache })

unfoldable pub get : Text → Io Text
unfolding attempt lookup
get key = attempt do
  found ← gets (λ w. lookup key w.now w.cache)
  of_result (elim found [ none ↦ err (known cache_miss) | some value ↦ ok value ])
