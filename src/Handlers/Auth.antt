-- ===== src/Handlers/Auth.antt =====
-- internal/transport/http/handlers/auth
use ffgif.Base.{Bool, ◌||◌, none, some, [], ◌∷◌, ◌++◌, Text, codes, if◌then◌else◌}
use ffgif.World.{
  Io, Result, ok, err, pure, raise, catch, ◌>>=◌, External, Error, errors_is, panic, user_not_found,
  user_not_verified, user_exists, invalid_credential, token_fetch_failed,
  reseter_token_fetch_failed, invalid_token, message_queue_failed,
}
use ffgif.Pkg.{Config}
use ffgif.Auth.Service
use ffgif.Http.Response.{Response, words, fields, reply, send_error, located}
use ffgif.Handlers.Request.{
  Context, Decoded, internal_error, bad_credentials, with_value, with_body, answer,
}

pub record ReqSignup : Type 0 where
  pub username : Text
  pub fullname : Text
  pub email : Text
  pub password : Text
  pub confirm_password : Text

pub record ReqLogin : Type 0 where
  pub email : Text
  pub password : Text

pub record ReqReset : Type 0 where
  pub token : Text
  pub password : Text
  pub confirm_password : Text

-- The status and the body by the error of the service.
unfoldable pub signup_error : Error → Response
signup_error e =
    if errors_is e user_exists then send_error "AUTH_USER_EXISTS" 409 else internal_error

unfoldable pub login_error : Error → Response
login_error e =
    if errors_is e user_not_verified
    then send_error "AUTH_USER_NOT_VERIFIED" 403
    else if errors_is e invalid_credential
    then bad_credentials
    else internal_error

unfoldable pub verify_error : Error → Response
verify_error e =
    if errors_is e invalid_token then send_error "AUTH_VERIFY_TOKEN_INVALID" 410 else internal_error

unfoldable pub resend_error : Error → Response
resend_error e =
    if errors_is e user_not_found
    then send_error "AUTH_USER_NOT_FOUND" 404
    else if errors_is e token_fetch_failed || errors_is e user_not_verified
    then send_error "AUTH_USER_NOT_VERIFIED" 403
    else internal_error

unfoldable pub forgot_error : Error → Response
forgot_error e =
    if errors_is e user_not_verified
    then send_error "AUTH_USER_NOT_VERIFIED" 403
    else internal_error

unfoldable pub reset_error : Error → Response
reset_error e =
    if errors_is e reseter_token_fetch_failed
    then send_error "AUTH_RESET_TOKEN_INVALID" 410
    else internal_error

abbrev pub check_mail : Response
check_mail = reply 202 (fields (("msg", codes "check mail") ∷ []))

-- A failed queue, of which the user is not told.
abbrev pub or_queue : Response → (Error → Response) → Error → Response
or_queue done refuse e = if errors_is e message_queue_failed then done else refuse e

module _ (x : External) (cfg : Config) where
  -- When the queue has failed the service returns no user, and no Location is sent.
  unfoldable pub signup : (ReqSignup → Bool) → Decoded ReqSignup → Io Response
  unfolding Service.signup signup_error
  signup validate body = with_body validate body λ req.
      answer (Service.signup x cfg req.email req.username req.fullname req.password)
        (or_queue (reply 201 (words (codes "user created"))) signup_error)
        (λ id.
          located (codes "/users/" ++ x.uuid_string id) (reply 201 (words (codes "user created"))))

  unfoldable pub login : (ReqLogin → Bool) → Decoded ReqLogin → Io Response
  unfolding Service.login login_error
  login validate body = with_body validate body λ req.
      answer (Service.login x cfg req.email req.password) login_error
        λ (r : Text × _). reply 200 (fields (("token", r.0) ∷ ("id", x.uuid_string r.1) ∷ []))

  -- The token stands in the query.
  unfoldable pub verify : Text → Io Response
  unfolding Service.verify verify_error
  verify token = with_value token (
      answer (Service.verify x cfg token) verify_error
        λ _. reply 200 (words (codes "account verified")))

  -- The body holds the address.
  unfoldable pub resend_verify : (Text → Bool) → Decoded Text → Io Response
  unfolding Service.resend_verify resend_error
  resend_verify validate body = with_body validate body λ email.
      answer (Service.resend_verify x cfg email) (or_queue check_mail resend_error) λ _. check_mail

  -- An address that no user has is answered as one that a user has.
  unfoldable pub forgot_password : (Text → Bool) → Decoded Text → Io Response
  unfolding Service.forgot_password forgot_error
  forgot_password validate body = with_body validate body λ email.
      answer (Service.forgot_password x cfg email)
        (λ e. if errors_is e user_not_found then check_mail else or_queue check_mail forgot_error e)
        (λ _. check_mail)

  unfoldable pub reset_password_get : Text → Io Response
  unfolding Service.reset_password_get
  reset_password_get token = with_value token (
      answer (Service.reset_password_get x cfg token)
        (λ _. send_error "AUTH_RESET_TOKEN_INVALID" 410)
        (λ t. reply 200 (fields (("token", t) ∷ []))))

  unfoldable pub reset_password_post : (ReqReset → Bool) → Decoded ReqReset → Io Response
  unfolding Service.reset_password_post reset_error
  reset_password_post validate body = with_body validate body λ req.
      answer (Service.reset_password_post x cfg req.token req.password req.confirm_password)
        (or_queue (reply 200 (words (codes "ok"))) reset_error)
        (λ _. reply 200 (words (codes "ok")))

  -- Claims without an expiry end the request in a panic.
  unfoldable pub logout_answer : Result (Unit {0}) → Io Response
  logout_answer (ok _) = pure (reply 200 (words (codes "logout")))
  logout_answer (err panic) = raise panic
  logout_answer (err e) = pure internal_error

  unfoldable pub logout : Context → Io Response
  unfolding Service.logout logout_answer
  logout none = pure internal_error
  logout (some (claims, jwt)) = do r ← catch (Service.logout x cfg jwt claims); logout_answer r
