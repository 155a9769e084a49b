-- ===== src/Handlers/Users.antt =====
-- internal/transport/http/handlers/user
use ffgif.Base.{Bool, ◌||◌, [], ◌∷◌, ◌++◌, Text, codes, text_eq, if◌then◌else◌}
use ffgif.World.{
  Io, pure, External, Error, errors_is, user_not_found, invalid_credential, password_mismatched,
  etag_validation_failed,
}
use ffgif.Pkg.{Config}
use ffgif.User.Profiles.{ProfileResponse, ProfileUpdateRequest}
use ffgif.User.Service
use ffgif.Http.Response.{
  Response, words, fields, profile_data, quota_data, reply, send_error, tagged,
}
use ffgif.Handlers.Request.{
  Context, Decoded, invalid, internal_error, precondition_failed, bad_credentials, with_user,
  with_body, answer, any_error,
}

pub record ReqChangePassword : Type 0 where
  pub current_password : Text
  pub password : Text
  pub confirm_password : Text

unfoldable pub profile_error : Error → Response
profile_error e =
    if errors_is e user_not_found then send_error "AUTH_USER_NOT_FOUND" 404 else internal_error

unfoldable pub change_error : Error → Response
change_error e =
    if errors_is e user_not_found
    then send_error "AUTH_USER_NOT_FOUND" 404
    else if errors_is e password_mismatched
    then invalid
    else if errors_is e invalid_credential
    then bad_credentials
    else internal_error

unfoldable pub delete_error : Error → Response
delete_error e =
    if errors_is e user_not_found
    then send_error "AUTH_USER_NOT_FOUND" 404
    else if errors_is e invalid_credential
    then bad_credentials
    else internal_error

unfoldable pub update_error : Error → Response
update_error e = if errors_is e etag_validation_failed then precondition_failed else internal_error

-- fmt.Sprintf(`"%s"`, t): the text between quotes (34).
abbrev pub quoted : Text → Text
quoted t = 34 ∷ (t ++ 34 ∷ [])

module _ (x : External) where
  unfoldable pub get_profile : Context → Io Response
  unfolding Service.get_profile profile_error
  get_profile ctx = with_user ctx λ id.
      answer (Service.get_profile x id) profile_error λ (found : ProfileResponse).
        tagged (quoted (x.rfc3339_nano found.updated_at)) (reply 200 (profile_data found))

  unfoldable pub get_profile_by_id : Context → Text → Io Response
  unfolding get_profile Service.get_profile profile_error
  get_profile_by_id ctx target =
      if text_eq target [] || text_eq target (codes "me")
      then get_profile ctx
      else answer (Service.get_profile x target) profile_error
          λ found. reply 200 (profile_data found)

  unfoldable pub get_quota : Context → Io Response
  unfolding Service.get_quota
  get_quota ctx =
      with_user ctx
        λ id. answer (Service.get_quota x id) any_error λ quota. reply 200 (quota_data quota)

  -- `if_match` is the header If-Match, "" if there is none.
  unfoldable pub update_profile :
      (ProfileUpdateRequest → Bool) → Context → Decoded ProfileUpdateRequest → Text → Io Response
  unfolding Service.update_profile update_error
  update_profile validate ctx body if_match = with_body validate body λ req. with_user ctx λ id.
      if text_eq if_match []
      then pure precondition_failed
      else answer (Service.update_profile x req id if_match) update_error
          λ updated. reply 200 (profile_data updated)

module _ (x : External) (cfg : Config) where
  unfoldable pub change_password :
      (ReqChangePassword → Bool) → Context → Decoded ReqChangePassword → Io Response
  unfolding Service.change_password change_error
  change_password validate ctx body = with_user ctx λ id. with_body validate body λ req.
      answer
        (Service.change_password x cfg id req.current_password req.password req.confirm_password)
        change_error (λ _. reply 200 (words (codes "changed")))

  -- The body holds the password.
  unfoldable pub delete_user : (Text → Bool) → Context → Decoded Text → Io Response
  unfolding Service.delete_user delete_error
  delete_user validate ctx body = with_user ctx λ id. with_body validate body λ password.
      answer (Service.delete_user x cfg id password) delete_error
        λ _. reply 200 (fields (("msg", codes "user deleted") ∷ []))
