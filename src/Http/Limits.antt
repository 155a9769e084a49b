-- ===== src/Http/Limits.antt =====
-- What the chain of server.go lets through: Preflight and the limiter.
use ffgif.Base.{ℕ, ◌≡◌, true, false, Option, some, List, arith, Text, codes, text_eq}
use ffgif.Base.Int.{ℤ}
use ffgif.World.{World, Io, Result, ok, err, pure}
use ffgif.World.{External}
use ffgif.RateLimit.Bucket
use ffgif.RateLimit.Middleware.{Reply, reply_of}
use ffgif.Http.Response.{Response}
use ffgif.Http.Chain
use ffgif.Http.Chain.{Request, Handler}

module _ (itoa : ℤ → Text) (x : External) (allowed : List Text) (split : Text → Option Text) where
  -- The answer with a status, and no call or change of the tables or the cache.
  abbrev pub AnswersAlone : ℕ → World → Result Response × World → Type 0
  AnswersAlone status w (ok resp, v) =
      (resp.status ≡ status) × (v.db ≡ w.db) × (v.cache ≡ w.cache) × (v.calls ≡ w.calls)
  AnswersAlone status w (err _, v) = ⊥

  -- A preflight request is answered by the chain itself, without the mux, the limiter or the store
  -- of the limiter, and whatever these would do: it costs no token.
  pub preflight-AnswersAlone :
      (run : Text → ℕ → Io (Option Reply)) (mux : Handler) (r : Request) (w : World)
      → text_eq r.method (codes "OPTIONS") ≡ true
      → AnswersAlone 204 w (Chain.serve itoa x allowed split run mux r w)
  unfolding Chain.serve
  preflight-AnswersAlone run mux r w h = ground arith

  -- A request that is no preflight, from an address whose bucket refuses it, is answered with 429,
  -- whatever the mux would do with it: the mux does not run.
  pub refused-AnswersAlone :
      (b : Bucket.Reply) (ip : Text) (mux : Handler) (r : Request) (w : World)
      → text_eq r.method (codes "OPTIONS") ≡ false
      → split r.remote_addr ≡ some ip
      → b.allowed ≡ false
      → AnswersAlone 429 w
          (Chain.serve itoa x allowed split (λ key now. pure (some (reply_of b))) mux r w)
  unfolding Chain.serve
  refused-AnswersAlone b ip mux r w h at denied = ground arith
