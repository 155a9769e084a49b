-- ===== src/Http/Chain.antt =====
-- internal/transport/http/middleware, but for auth.go, and the chain of server.go. Logger only
-- writes to the log, and BlockIP and OneTimePerEmail only pass a request on.
use ffgif.Base.{
  ℕ, ◌*◌, ◌/◌, String, Bool, false, ◌||◌, Option, none, some, List, [], ◌∷◌, Text, codes, text_eq,
  ◌++◌, if◌then◌else◌,
}
use ffgif.Base.Int.{ℤ, pos}
use ffgif.World.{Io, pure, gets, draw_uuid, ◌>>=◌, External, Payload}
use ffgif.Pkg.{Config}
use ffgif.RateLimit.Middleware
use ffgif.RateLimit.Middleware.{Headers, Reply, Answer, internal_error, too_many_requests, admit}
use ffgif.Http.Auth
use ffgif.Http.Manager
use ffgif.Http.Response.{Response, nothing, reply, send_error, with_header}

-- A request, as far as the middleware reads it: a header that is not sent is "".
pub record Request : Type 0 where
  pub method : Text
  pub path : Text
  pub origin : Text
  pub request_id : Text
  pub authorization : Text
  pub remote_addr : Text
  -- the context: the claims with the token, and the id for the log
  pub claims : Option (Payload × Text)
  pub logged_id : Text
  pub body : Text
  -- how many bytes of the body may be read
  pub body_limit : Option ℕ

abbrev pub Handler : Type 0
Handler = Request → Io Response

-- What the rest of the chain answers, with a header set before.
abbrev pub setting : String → Text → Io Response → Io Response
setting name value rest = do r ← rest; pure (with_header name value r)

unfoldable pub logger : Handler → Handler
logger next r = next r

unfoldable pub block_ip : Handler → Handler
block_ip next r = next r

unfoldable pub one_time_per_email : Handler → Handler
one_time_per_email next r = next r

unfoldable pub max_body_1mb : Handler → Handler
max_body_1mb next r = next (record r { body_limit = some (1024 * 1024) })

unfoldable pub preflight : Handler → Handler
unfolding text_eq
preflight next r = if text_eq r.method (codes "OPTIONS") then pure (reply 204 nothing) else next r

-- The map of the allowed origins is made of `allowed` once, at the start.
unfoldable pub is_allowed : List Text → Text → Bool
unfolding text_eq
is_allowed [] origin = false
is_allowed (a ∷ allowed) origin = text_eq a origin || is_allowed allowed origin

unfoldable pub check_origin : List Text → Text → Bool
unfolding is_allowed
check_origin allowed origin = if text_eq origin [] then false else is_allowed allowed origin

unfoldable pub cors : List Text → Handler → Handler
unfolding check_origin
cors allowed next r =
    let rest = setting "Vary" (codes "Origin") (
      setting "Access-Control-Allow-Headers" (codes "Content-Type, Authorization, content-type") (
        setting "Access-Control-Allow-Methods" (codes "GET, POST, OPTIONS, PUT, DELETE, PATCH")
          (next r))) in
    if check_origin allowed r.origin
    then setting "Access-Control-Allow-Origin" r.origin rest
    else rest

unfoldable pub request_id : External → Handler → Handler
unfolding draw_uuid
request_id x next r = do
  fresh ←
      if text_eq r.request_id []
      then (do id ← draw_uuid; pure (x.uuid_string id))
      else pure r.request_id
  setting "X-Request-Id" fresh (next (record r { logged_id = fresh }))

-- auth.go in the chain: the handler behind it finds the claims and the token in the context.
unfoldable pub authenticated : External → Config → Handler → Handler
unfolding Auth.auth
authenticated x cfg next r =
    Auth.auth x cfg (λ c token. next (record r { claims = some (c, token) })) r.authorization

-- strconv.Itoa is a parameter.
module _ (itoa : ℤ → Text) where
  unfoldable pub rate_headers : Headers → Response → Response
  rate_headers h r = with_header "X-RateLimit-Limit" (itoa (pos h.limit)) (
      with_header "X-RateLimit-Remaining" (itoa h.remaining)
        (with_header "X-RateLimit-Reset" (itoa (pos h.reset)) r))

  -- What the limiter decides.
  unfoldable pub limited : Io Response → Answer → Io Response
  unfolding rate_headers
  limited rest internal_error = pure (send_error "INTERNAL_ERROR" 500)
  limited rest (too_many_requests h seconds) = pure (
      rate_headers h
        (with_header "Retry-After" (itoa (pos seconds)) (send_error "RATE_LIMITED" 429)))
  limited rest (admit h) = do r ← rest; pure (rate_headers h r)

  -- net.SplitHostPort, and the call of the script at a time in milliseconds, are parameters.
  unfoldable pub rate_limit :
      (Text → Option Text) → (Text → ℕ → Io (Option Reply)) → ℕ → Handler → Handler
  unfolding limited Middleware.limit
  rate_limit split run rate next r = elim (split r.remote_addr) [
    | none ↦ limited (next r) (Middleware.limit rate none (λ key. none) 0)
    | some ip ↦ do
      now ← gets (λ w. w.now / 1000000)
      res ← run (codes "rate_limit:ip:" ++ ip) now
      limited (next r) (Middleware.limit rate (some ip) (λ key. res) now)
  ]

  -- The chain of `Start` around the mux, with 20 requests per second.
  unfoldable pub serve :
      External
      → List Text
      → (Text → Option Text)
      → (Text → ℕ → Io (Option Reply))
      → Handler
      → Handler
  unfolding request_id cors preflight logger rate_limit Manager.wrap_mux
  serve x allowed split run mux =
      Manager.wrap_mux
        (Manager.use_ []
          (request_id x ∷ cors allowed ∷ preflight ∷ logger ∷ rate_limit split run 20 ∷ []))
        mux
