-- ===== src/Handlers/Gifs.antt =====
-- internal/transport/http/handlers/media, the handlers of the routes under /gifs
use ffgif.Base.{
  ℕ, ltb, Bool, ◌||◌, Option, none, some, [], ◌∷◌, Text, codes, text_eq, if◌then◌else◌,
}
use ffgif.Base.Int.{ℤ, pos, negsuc}
use ffgif.Base.Parse.{parse_int}
use ffgif.World.{
  Io, pure, External, Error, errors_is, gif_not_found, gif_owner_mismatch, etag_validation_failed,
  Gif,
}
use ffgif.Gif.Repo.{UpdateRequest}
use ffgif.Gif.Service
use ffgif.Http.Response.{
  Response, nothing, fields, one_gif, gif_list, gif_page, reply, send_error, tagged,
}
use ffgif.Handlers.Request.{
  Context, Decoded, internal_error, precondition_failed, user_or, with_user, with_value, with_body,
  answer, any_error,
}
use ffgif.Handlers.Users.{quoted}

unfoldable pub gif_error : Error → Response
gif_error e =
    if errors_is e gif_not_found
    then send_error "GIF_NOT_FOUND" 404
    else if errors_is e gif_owner_mismatch
    then send_error "GIF_FORBIDDEN" 403
    else internal_error

unfoldable pub update_error : Error → Response
unfolding gif_error
update_error e =
    if errors_is e gif_not_found
    then send_error "GIF_NOT_FOUND" 404
    else if errors_is e gif_owner_mismatch
    then send_error "GIF_FORBIDDEN" 403
    else if errors_is e etag_validation_failed
    then precondition_failed
    else internal_error

-- A number of the query, if it is above 0.
abbrev pub above_zero : ℕ → Option ℤ → ℕ
above_zero default none = default
above_zero default (some (pos n)) = if ltb 0 n then n else default
above_zero default (some (negsuc n)) = default

-- strconv.Atoi of a value of the query, with the default.
unfoldable pub query_number : ℕ → Text → ℕ
unfolding parse_int
query_number default value = above_zero default (parse_int 64 value)

module _ (x : External) where
  -- The values `status`, `page` and `limit` of the query, for the GIFs of a user.
  unfoldable pub page_of : Text → Text → Text → Text → Io Response
  unfolding Service.get_gifs query_number
  page_of user status page limit =
      answer
        (Service.get_gifs x user (if text_eq status [] then codes "all" else status)
          (query_number 1 page) (query_number 20 limit))
        any_error (λ found. reply 200 (gif_page found))

  unfoldable pub get_gifs : Context → Text → Text → Text → Io Response
  unfolding page_of
  get_gifs ctx status page limit = with_user ctx λ user. page_of user status page limit

  -- `user_id` is the value {userId} of the path.
  unfoldable pub get_gifs_by_user_id : Context → Text → Text → Text → Text → Io Response
  unfolding get_gifs page_of
  get_gifs_by_user_id ctx user_id status page limit =
      if text_eq user_id [] || text_eq user_id (codes "me")
      then get_gifs ctx status page limit
      else page_of user_id status page limit

  unfoldable pub get_by_key : Context → Text → Io Response
  unfolding Service.get_by_key gif_error
  get_by_key ctx key = with_value key (
      user_or internal_error ctx λ user.
        answer (Service.get_by_key x user key) gif_error λ (resp : Gif).
          tagged (quoted (x.rfc3339_nano resp.updated_at)) (reply 200 (one_gif resp)))

  unfoldable pub get_gif_thumbnail : Context → Text → Io Response
  unfolding Service.get_gif_thumbnail gif_error
  get_gif_thumbnail ctx key = with_value key (
      user_or internal_error ctx λ user.
        answer (Service.get_gif_thumbnail x user key) gif_error
          λ url. reply 200 (fields (("thumbnail", url) ∷ [])))

  unfoldable pub get_recents : Context → Io Response
  unfolding Service.get_recents
  get_recents ctx =
      with_user ctx
        λ user. answer (Service.get_recents x user) any_error λ gifs. reply 200 (gif_list gifs)

  unfoldable pub download : Context → Text → Io Response
  unfolding Service.download gif_error
  download ctx key = with_user ctx λ user.
      with_value key (
        answer (Service.download x user key) gif_error
          λ url. reply 200 (fields (("url", url) ∷ [])))

  unfoldable pub delete : Context → Text → Io Response
  unfolding Service.delete gif_error
  delete ctx key = with_user ctx λ user. with_value key (
      answer (Service.delete x user key) gif_error
        λ _. reply 200 (fields (("gif_key", key) ∷ ("status", codes "deleted") ∷ [])))

  -- The key may be empty.
  unfoldable pub save : Context → Text → Io Response
  unfolding Service.save
  save ctx key =
      with_user ctx λ user. answer (Service.save x user key) any_error λ _. reply 204 nothing

  -- `if_match` is the header If-Match, "" if there is none.
  unfoldable pub update :
      (UpdateRequest → Bool) → Context → Text → Decoded UpdateRequest → Text → Io Response
  unfolding Service.update update_error
  update validate ctx key body if_match = with_user ctx λ user. with_value key (
      with_body validate body λ req.
        if text_eq if_match []
        then pure precondition_failed
        else answer (Service.update x user key req if_match) update_error
            λ updated. reply 200 (one_gif updated))
