-- ===== src/Http/Session.antt =====
-- A session from `Logout` on: internal/app/auth/logout.go, the cache and the middleware together.
use ffgif.Base.{
  ℕ, ◌<◌, ◌≡◌, ◌≢◌, refl, sym, ap, ◌∙◌, some, List, [], ◌∷◌, ◌++◌, arith, Text, codes, All, text_eq,
  text_eq_iff, has_prefix-append, trim_prefix-append,
}
use ffgif.World.{
  World, CacheEntry, Io, Result, ok, err, External, Payload, Parsed, valid, expired, malformed,
}
use ffgif.Pkg.{Config}
use ffgif.Cache
use ffgif.Auth.Service
use ffgif.Auth.Service.{blocklist_key}
use ffgif.Http.Response.{Response}
use ffgif.Http.Auth

-- Entries of other keys do not hide an entry.
lookup-append :
    (key : Text) (now : ℕ) (extra es : List CacheEntry)
    → All (λ (e : CacheEntry). e.key ≢ key) extra
    → Cache.lookup key now (extra ++ es) ≡ Cache.lookup key now es
unfolding Cache.lookup
lookup-append key now [] es h = refl
lookup-append key now (e ∷ extra) es h =
    ground (arith, lookup-append key now extra es h.1, text_eq_iff key e.key)

-- What package jwt documents of the parser: it rejects a token from its expiry on, and a token
-- holds one set of claims.
pub record ParsesJwt (x : External) : Type 0 where
  pub expires :
      (key token : Text) (now e : ℕ) (c : Payload)
      → x.jwt_parse key token now ≡ valid c
      → c.expires_at ≡ some e
      → now < e
  pub one_payload :
      (key token : Text) (n m : ℕ) (c d : Payload)
      → x.jwt_parse key token n ≡ valid c
      → x.jwt_parse key token m ≡ valid d
      → c ≡ d

module _ (x : External) (cfg : Config) (next : Payload → Text → Io Response) where
  -- The request is answered with 401, and the handler has not run.
  abbrev pub Denies : World → Result Response × World → Type 0
  Denies v (ok r, v') =
      (r.status ≡ 401)
      × (v'.db ≡ v.db)
      × (v'.cache ≡ v.cache)
      × (v'.emails ≡ v.emails)
      × (v'.videos ≡ v.videos)
  Denies v (err _, v') = ⊥

  -- A live entry of the blocklist denies the request, and so does an outage of the cache.
  check_token-blocked :
      (token : Text) (claims : Payload) (v : World)
      → Cache.lookup (blocklist_key token) v.now v.cache ≡ some (codes "1")
      → Denies v (Auth.check_token x cfg next token (ok claims) v)
  unfolding Auth.check_token text_eq
  check_token-blocked token claims v h = ground arith

  auth_lem :
      (token : Text) (v : World) (p : Parsed)
      → x.jwt_parse cfg.jwt_secret_key token v.now ≡ p
      → ((c : Payload) → p ≡ valid c → Denies v (Auth.check_token x cfg next token (ok c) v))
      → Denies v (Auth.auth x cfg next (codes "Bearer " ++ token) v)
  unfolding Auth.auth text_eq
  auth_lem token v (valid c) e h = ground (
    arith,
    has_prefix-append (codes "Bearer ") token,
    trim_prefix-append (codes "Bearer ") token,
    h c refl,
  )
  auth_lem token v expired e h =
      ground (
        arith,
        has_prefix-append (codes "Bearer ") token,
        trim_prefix-append (codes "Bearer ") token,
      )
  auth_lem token v malformed e h =
      ground (
        arith,
        has_prefix-append (codes "Bearer ") token,
        trim_prefix-append (codes "Bearer ") token,
      )

  -- What `logout` writes for a token that has not expired.
  logout-lookup :
      (jwt : Text) (claims : Payload) (e : ℕ) (w : World)
      → claims.expires_at ≡ some e
      → w.now < e
      → (Service.logout x cfg jwt claims w).0 ≡ ok tt
      → (n : ℕ) → n < e
      → Cache.lookup (blocklist_key jwt) n (Service.logout x cfg jwt claims w).1.cache
        ≡ some (codes "1")
  unfolding Service.logout Cache.lookup
  logout-lookup jwt claims e w he alive done n before =
      ground (arith, text_eq_iff (blocklist_key jwt) (blocklist_key jwt))

  -- Once a logout with a token that parses has succeeded, and given that a parser of JWT rejects a
  -- token from its expiry on and reads one set of claims, the token opens no request: at any time,
  -- under any outage and whatever was written to the cache under other keys since, a request that
  -- bears it is answered with 401 and reaches no handler.
  pub logout-final :
      (jwt : Text) (claims : Payload) (e : ℕ) (w v : World) (extra : List CacheEntry)
      → ParsesJwt x
      → x.jwt_parse cfg.jwt_secret_key jwt w.now ≡ valid claims
      → claims.expires_at ≡ some e
      → (Service.logout x cfg jwt claims w).0 ≡ ok tt
      → v.cache ≡ extra ++ (Service.logout x cfg jwt claims w).1.cache
      → All (λ (c : CacheEntry). c.key ≢ blocklist_key jwt) extra
      → Denies v (Auth.auth x cfg next (codes "Bearer " ++ jwt) v)
  logout-final jwt claims e w v extra laws parsed he done same others =
      let key = cfg.jwt_secret_key in
      auth_lem jwt v (x.jwt_parse key jwt v.now) refl λ c valid_now.
        let one = laws.one_payload key jwt w.now v.now claims c parsed valid_now in
        let before =
          laws.expires key jwt v.now e c valid_now
            (ap (λ (p : Payload). p.expires_at) (sym one) ∙ he) in
        let alive = laws.expires key jwt w.now e claims parsed he in
        check_token-blocked jwt c v (
          ap (Cache.lookup (blocklist_key jwt) v.now) same
          ∙ lookup-append (blocklist_key jwt) v.now extra _ others
          ∙ logout-lookup jwt claims e w he alive done v.now before)
