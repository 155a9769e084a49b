-- ===== src/Handlers/Request.antt =====
-- What the handlers share: who asks (internal/transport/http/httputil/auth_context.go), the body
-- (encoding/json and the validator, whose verdict is a parameter), and the answer.
use ffgif.Base.{Bool, not, Option, none, some, [], Text, text_eq, if◌then◌else◌}
use ffgif.World.{Io, ok, err, pure, catch, ◌>>=◌, Error, Payload}
use ffgif.Http.Response.{Response, unauthorized, send_error}

-- The claims and the token that the middleware Auth has put into the context.
abbrev pub Context : Type 0
Context = Option (Payload × Text)

-- httputil.GetUserId
unfoldable pub get_user_id : Context → Text
get_user_id none = []
get_user_id (some (claims, token)) = claims.subject

-- What json.Decoder.Decode makes of a body.
pub data Decoded (A : Type 0) : Type 0 where
  undecodable : Decoded A
  decoded : A → Decoded A

abbrev pub bad_request : Response
bad_request = send_error "BAD_REQUEST" 400

abbrev pub invalid : Response
invalid = send_error "VALIDATION_FAILED" 422

abbrev pub internal_error : Response
internal_error = send_error "INTERNAL_ERROR" 500

abbrev pub precondition_failed : Response
precondition_failed = send_error "PRECONDITION_FAILED" 412

abbrev pub challenged : Response
challenged =
    unauthorized
      "Bearer realm=\"ffgif\", error=\"invalid_token\", error_description=\"user id not found\""

abbrev pub bad_credentials : Response
bad_credentials =
    unauthorized
      "Bearer realm=\"ffgif\", error=\"invalid_token\", error_description=\"invalid credentials\""

-- `if userId == "" { …; return }`, with what is answered then.
abbrev pub user_or : Response → Context → (Text → Io Response) → Io Response
user_or refusal ctx handle =
    if text_eq (get_user_id ctx) [] then pure refusal else handle (get_user_id ctx)

abbrev pub with_user : Context → (Text → Io Response) → Io Response
with_user = user_or challenged

-- A value of the path or of the query that must not be empty.
abbrev pub with_value : Text → Io Response → Io Response
with_value value handle = if text_eq value [] then pure bad_request else handle

-- Decode, then validate.
abbrev pub with_body : {A : Type 0} → (A → Bool) → Decoded A → (A → Io Response) → Io Response
with_body validate undecodable handle = pure bad_request
with_body validate (decoded a) handle = if not (validate a) then pure invalid else handle a

-- A call of a service, answered by its result.
abbrev pub answer : {A : Type 0} → Io A → (Error → Response) → (A → Response) → Io Response
answer call refuse accept = do r ← catch call; pure (elim r [ ok a ↦ accept a | err e ↦ refuse e ])

-- Every error is one of the server.
abbrev pub any_error : Error → Response
any_error e = internal_error
