-- ===== src/Handlers/Friends.antt =====
-- internal/transport/http/handlers/friend
use ffgif.Base.{Bool, [], ◌∷◌, Text, codes, if◌then◌else◌}
use ffgif.World.{
  Io, External, Error, errors_is, friendship_not_found, friendship_not_authorized, already_exists,
  cannot_friend_self,
}
use ffgif.Friend.Service
use ffgif.Http.Response.{Response, fields, friendship_data, friend_list, reply, send_error}
use ffgif.Handlers.Request.{
  Context, Decoded, invalid, internal_error, with_user, with_value, with_body, answer, any_error,
}

-- The errors of Accept, Reject and Remove.
unfoldable pub friend_error : Error → Response
friend_error e =
    if errors_is e friendship_not_found
    then send_error "FRIENDSHIP_NOT_FOUND" 404
    else if errors_is e friendship_not_authorized
    then send_error "FRIENDSHIP_FORBIDDEN" 403
    else internal_error

unfoldable pub send_request_error : Error → Response
unfolding friend_error
send_request_error e =
    if errors_is e cannot_friend_self
    then invalid
    else if errors_is e already_exists
    then send_error "FRIENDSHIP_ALREADY_EXISTS" 409
    else friend_error e

module _ (x : External) where
  -- The body holds the id of the addressee.
  unfoldable pub send_request : (Text → Bool) → Context → Decoded Text → Io Response
  unfolding Service.send_request send_request_error
  send_request validate ctx body = with_user ctx λ user. with_body validate body λ addressee.
      answer (Service.send_request x user addressee) send_request_error
        λ f. reply 201 (friendship_data f)

  unfoldable pub accept : Context → Text → Io Response
  unfolding Service.accept friend_error
  accept ctx id = with_user ctx λ user.
      with_value id
        (answer (Service.accept x id user) friend_error λ f. reply 200 (friendship_data f))

  unfoldable pub reject : Context → Text → Io Response
  unfolding Service.reject friend_error
  reject ctx id = with_user ctx λ user. with_value id (
      answer (Service.reject x id user) friend_error
        λ _. reply 200 (fields (("msg", codes "rejected") ∷ [])))

  unfoldable pub remove : Context → Text → Io Response
  unfolding Service.remove friend_error
  remove ctx id = with_user ctx λ user. with_value id (
      answer (Service.remove x id user) friend_error
        λ _. reply 200 (fields (("msg", codes "removed") ∷ [])))

  unfoldable pub list_friends : Context → Io Response
  unfolding Service.list_friends
  list_friends ctx =
      with_user ctx λ user.
        answer (Service.list_friends x user) any_error λ found. reply 200 (friend_list found)

  unfoldable pub list_pending_incoming : Context → Io Response
  unfolding Service.list_pending_incoming
  list_pending_incoming ctx = with_user ctx λ user.
      answer (Service.list_pending_incoming x user) any_error λ found. reply 200 (friend_list found)
