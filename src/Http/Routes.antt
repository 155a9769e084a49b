-- ===== src/Http/Routes.antt =====
-- The tables of routes: RegisterRoutes of internal/transport/http/handlers/*/routes.go. The mux,
-- which picks a route by its pattern, belongs to net/http.
use ffgif.Base.{List, [], ◌∷◌, ◌++◌, Text, String, codes}
use ffgif.World.{External}
use ffgif.Pkg.{Config}
use ffgif.Http.Manager
use ffgif.Http.Chain
use ffgif.Http.Chain.{Handler}

pub record Route : Type 0 where
  pub pattern : Text
  pub handler : Handler

pub record AuthHandler : Type 0 where
  pub signup : Handler
  pub verify : Handler
  pub resend_verify : Handler
  pub login : Handler
  pub forgot_password : Handler
  pub reset_password_post : Handler
  pub reset_password_get : Handler
  pub logout : Handler

pub record MediaHandler : Type 0 where
  pub get_gifs : Handler
  pub get_gifs_by_user_id : Handler
  pub get_by_key : Handler
  pub download : Handler
  pub get_gif_thumbnail : Handler
  pub update : Handler
  pub get_recents : Handler
  pub delete : Handler
  pub save : Handler
  pub status : Handler
  pub stream : Handler
  pub last_video : Handler
  pub upload : Handler
  pub conversion_status : Handler
  pub convert : Handler

pub record ShareHandler : Type 0 where
  pub create : Handler
  pub get : Handler
  pub delete : Handler
  pub create_by_token : Handler
  pub get_by_token : Handler
  pub download_by_token : Handler

pub record FriendHandler : Type 0 where
  pub send_request : Handler
  pub list_pending_incoming : Handler
  pub accept : Handler
  pub reject : Handler
  pub list_friends : Handler
  pub remove : Handler

pub record UserHandler : Type 0 where
  pub get_profile : Handler
  pub get_profile_by_id : Handler
  pub get_quota : Handler
  pub update_profile : Handler
  pub change_password : Handler
  pub delete_user : Handler

abbrev pub route : String → Handler → Route
route pattern handler = record { pattern = codes pattern; handler = handler }

module _ (x : External) (cfg : Config) where
  -- `manager.With(handler, h.middlewares.Auth)`
  unfoldable pub behind_auth : Handler → Handler
  unfolding Manager.with_ Chain.authenticated
  behind_auth handler = Manager.with_ handler (Chain.authenticated x cfg ∷ [])

  -- The routes for a guest.
  unfoldable pub open_auth_routes : AuthHandler → List Route
  unfolding Manager.with_ Chain.max_body_1mb Chain.one_time_per_email Chain.block_ip
  open_auth_routes h =
      let limit_body = Chain.max_body_1mb ∷ [] in
      let strict = Chain.max_body_1mb ∷ Chain.one_time_per_email ∷ Chain.block_ip ∷ [] in
      route "POST /auth/signup" (Manager.with_ h.signup limit_body)
      ∷ route "GET /auth/verify" (Manager.with_ h.verify [])
      ∷ route "POST /auth/verify/resend" (Manager.with_ h.resend_verify strict)
      ∷ route "POST /auth/login" (Manager.with_ h.login limit_body)
      ∷ route "POST /auth/forgot-password" (Manager.with_ h.forgot_password strict)
      ∷ route "POST /auth/reset" (Manager.with_ h.reset_password_post strict)
      ∷ route "GET /auth/reset" (Manager.with_ h.reset_password_get strict)
      ∷ []

  unfoldable pub auth_routes : AuthHandler → List Route
  unfolding open_auth_routes behind_auth
  auth_routes h = open_auth_routes h ++ route "POST /auth/logout" (behind_auth h.logout) ∷ []

  unfoldable pub media_routes : MediaHandler → List Route
  unfolding behind_auth
  media_routes h =
      route "GET /gifs/me" (behind_auth h.get_gifs)
      ∷ route "GET /gifs/user/{userId}" (behind_auth h.get_gifs_by_user_id)
      ∷ route "GET /gifs/me/{key}" (behind_auth h.get_by_key)
      ∷ route "GET /gifs/me/{key}/download" (behind_auth h.download)
      ∷ route "GET /gifs/me/{key}/thumbnail" (behind_auth h.get_gif_thumbnail)
      ∷ route "PATCH /gifs/me/{key}" (behind_auth h.update)
      ∷ route "GET /gifs/me/recents" (behind_auth h.get_recents)
      ∷ route "DELETE /gifs/me/{key}" (behind_auth h.delete)
      ∷ route "POST /gifs/me/recents/{key}/save" (behind_auth h.save)
      ∷ route "GET /uploads/{key}/status" (behind_auth h.status)
      ∷ route "GET /uploads/{key}/stream" (behind_auth h.stream)
      ∷ route "GET /uploads/last" (behind_auth h.last_video)
      ∷ route "POST /uploads" (behind_auth h.upload)
      ∷ route "GET /jobs/{jobId}/status" (behind_auth h.conversion_status)
      ∷ route "POST /jobs" (behind_auth h.convert)
      ∷ []

  -- The links by token open without a login.
  unfoldable pub open_share_routes : ShareHandler → List Route
  unfolding Manager.with_
  open_share_routes h =
      route "GET /s/{token}" (Manager.with_ h.get_by_token [])
      ∷ route "GET /s/{token}/download" (Manager.with_ h.download_by_token [])
      ∷ []

  unfoldable pub share_routes : ShareHandler → List Route
  unfolding open_share_routes behind_auth
  share_routes h =
      route "POST /gifs/me/{key}/shares" (behind_auth h.create)
      ∷ route "GET /gifs/me/shares" (behind_auth h.get)
      ∷ route "DELETE /gifs/me/{key}/shares/{shareWithId}" (behind_auth h.delete)
      ∷ route "POST /s" (behind_auth h.create_by_token)
      ∷ open_share_routes h

  unfoldable pub friend_routes : FriendHandler → List Route
  unfolding behind_auth
  friend_routes h =
      route "POST /friends/requests" (behind_auth h.send_request)
      ∷ route "GET /friends/requests" (behind_auth h.list_pending_incoming)
      ∷ route "PATCH /friends/requests/{id}" (behind_auth h.accept)
      ∷ route "DELETE /friends/requests/{id}" (behind_auth h.reject)
      ∷ route "GET /friends" (behind_auth h.list_friends)
      ∷ route "DELETE /friends/{id}" (behind_auth h.remove)
      ∷ []

  unfoldable pub user_routes : UserHandler → List Route
  unfolding behind_auth
  user_routes h =
      route "GET /users/me/profile" (behind_auth h.get_profile)
      ∷ route "GET /users/{userId}/profile" (behind_auth h.get_profile_by_id)
      ∷ route "GET /users/me/quota" (behind_auth h.get_quota)
      ∷ route "PATCH /users/me/profile" (behind_auth h.update_profile)
      ∷ route "PATCH /users/me/change-password" (behind_auth h.change_password)
      ∷ route "DELETE /users/me" (behind_auth h.delete_user)
      ∷ []
