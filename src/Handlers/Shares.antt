-- ===== src/Handlers/Shares.antt =====
-- internal/transport/http/handlers/share
use ffgif.Base.{ℕ, ltb, ◌==◌, Bool, ◌||◌, [], ◌∷◌, ◌++◌, Text, codes, if◌then◌else◌}
use ffgif.World.{
  Io, pure, gets, ◌>>=◌, External, Error, errors_is, no_rows, gif_not_found, gif_owner_mismatch,
  share_not_found, not_authorized,
}
use ffgif.Share.Service
use ffgif.Http.Response.{
  Response, words, fields, share_list, share_link, reply, send_error, located,
}
use ffgif.Handlers.Request.{
  Context, Decoded, invalid, internal_error, with_user, with_value, with_body, answer, any_error,
}

-- An `expire_at` of 0 stands for the zero time.
pub record ReqCreate : Type 0 where
  pub shared_with : Text
  pub expire_at : ℕ

pub record ReqCreateByToken : Type 0 where
  pub gif_key : Text
  pub email : Text
  pub expire_at : ℕ

unfoldable pub create_error : Error → Response
create_error e =
    if errors_is e gif_not_found
    then send_error "GIF_NOT_FOUND" 404
    else if errors_is e gif_owner_mismatch
    then send_error "GIF_FORBIDDEN" 403
    else internal_error

unfoldable pub delete_error : Error → Response
delete_error e =
    if errors_is e not_authorized
    then send_error "SHARE_FORBIDDEN" 403
    else if errors_is e share_not_found
    then send_error "SHARE_NOT_FOUND" 404
    else internal_error

unfoldable pub token_error : Error → Response
token_error e =
    if errors_is e share_not_found || errors_is e no_rows
    then send_error "SHARE_NOT_FOUND" 404
    else internal_error

module _ (x : External) where
  -- `Create` for a body that is valid.
  unfoldable pub create_until : Text → Text → ReqCreate → Io Response
  unfolding Service.create create_error
  create_until user key req = do
    now ← gets (λ w. w.now)
    if req.expire_at == 0 || ltb req.expire_at now
        then pure invalid
        else answer (Service.create x user key req.shared_with req.expire_at) create_error λ _.
          located (codes "/gifs/me/" ++ key ++ codes "/shares/" ++ req.shared_with)
            (reply 201 (words (codes "shared")))

  unfoldable pub create : (ReqCreate → Bool) → Context → Text → Decoded ReqCreate → Io Response
  unfolding create_until
  create validate ctx key body =
      with_user ctx λ user. with_value key (with_body validate body (create_until user key))

  unfoldable pub create_by_token :
      (ReqCreateByToken → Bool) → Context → Decoded ReqCreateByToken → Io Response
  unfolding Service.create_by_token create_error
  create_by_token validate ctx body = with_user ctx λ user.
      with_body validate body λ (req : ReqCreateByToken).
        answer (Service.create_by_token x user req.gif_key req.email req.expire_at) create_error
          (λ token. located (codes "/s/" ++ token) (reply 201 (fields (("token", token) ∷ []))))

  -- The values {key} and {shareWithId} of the path.
  unfoldable pub delete : Context → Text → Text → Io Response
  unfolding Service.delete delete_error
  delete ctx key share_with_id = with_user ctx λ user. with_value key (
      with_value share_with_id (
        answer (Service.delete x user key share_with_id) delete_error
          λ _. reply 200 (fields (("msg", codes "share deleted") ∷ []))))

  unfoldable pub get : Context → Io Response
  unfolding Service.get
  get ctx =
      with_user ctx
        λ user. answer (Service.get x user) any_error λ found. reply 200 (share_list found)

  unfoldable pub get_by_token : Text → Io Response
  unfolding Service.get_by_token token_error
  get_by_token token =
      with_value token
        (answer (Service.get_by_token x token) token_error λ found. reply 200 (share_link found))

  unfoldable pub download_by_token : Text → Io Response
  unfolding Service.download_by_token token_error
  download_by_token token = with_value token (
      answer (Service.download_by_token x token) token_error
        λ url. reply 200 (fields (("download_url", url) ∷ [])))
