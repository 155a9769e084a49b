-- ===== src/Tests/Http.antt =====
-- The theorem on sessions at a concrete token.
use ffgif.Base.{◌*◌, refl, inl, All, has_prefix, none, [], ◌∷◌, ◌++◌, arith, Text, codes}
use ffgif.World.{World, CacheEntry, Io, pure, Payload}
use ffgif.Pkg.{hour}
use ffgif.Auth.Service
use ffgif.Auth.Service.{blocklist_key}
use ffgif.Http.Response.{Response, nothing, reply}
use ffgif.Http.Auth
use ffgif.Http.Chain.{Request, Handler}
use ffgif.Http.Routes
use ffgif.Http.Routes.{AuthHandler, MediaHandler, ShareHandler, FriendHandler, UserHandler}
use ffgif.Http.Guarded
use ffgif.Http.Session
use ffgif.Tests.Sample.{sample, config, claims, calm}

-- A handler that always answers 200.
abbrev handler : Payload → Text → Io Response
handler c token = pure (reply 200 nothing)

sample-ParsesJwt : Session.ParsesJwt sample
sample-ParsesJwt = record {
  expires = λ key token now e c parsed expiry. ground arith;
  one_payload = λ key token n m c d first second. ground arith;
}

abbrev jwt : Text
jwt = codes "jwt"

abbrev logged_out : World
logged_out = (Service.logout sample config jwt claims calm).1

abbrev extra : CacheEntry
extra = record { key = codes "k"; value = codes "v"; expires = none }

abbrev later : World
later = record logged_out { now = 2000; cache = extra ∷ logged_out.cache }

logout-final_example :
    Session.Denies sample config handler later
      (Auth.auth sample config handler (codes "Bearer " ++ jwt) later)
unfolding Service.logout
logout-final_example =
    Session.logout-final sample config handler jwt claims (24 * hour) calm later (extra ∷ [])
      sample-ParsesJwt refl refl refl refl ((λ e. ground arith), tt)

abbrev guest : Request
guest = record {
  method = codes "GET";
  path = codes "/gifs/me";
  origin = [];
  request_id = [];
  authorization = [];
  remote_addr = codes "1.2.3.4:5";
  claims = none;
  logged_id = [];
  body = [];
  body_limit = none;
}

-- A handler that always answers 200.
abbrev always : Handler
always r = pure (reply 200 nothing)

abbrev auth_handler : AuthHandler
auth_handler = record {
  signup = always;
  verify = always;
  resend_verify = always;
  login = always;
  forgot_password = always;
  reset_password_post = always;
  reset_password_get = always;
  logout = always;
}

abbrev media_handler : MediaHandler
media_handler = record {
  get_gifs = always;
  get_gifs_by_user_id = always;
  get_by_key = always;
  download = always;
  get_gif_thumbnail = always;
  update = always;
  get_recents = always;
  delete = always;
  save = always;
  status = always;
  stream = always;
  last_video = always;
  upload = always;
  conversion_status = always;
  convert = always;
}

abbrev share_handler : ShareHandler
share_handler = record {
  create = always;
  get = always;
  delete = always;
  create_by_token = always;
  get_by_token = always;
  download_by_token = always;
}

abbrev friend_handler : FriendHandler
friend_handler = record {
  send_request = always;
  list_pending_incoming = always;
  accept = always;
  reject = always;
  list_friends = always;
  remove = always;
}

abbrev user_handler : UserHandler
user_handler = record {
  get_profile = always;
  get_profile_by_id = always;
  get_quota = always;
  update_profile = always;
  change_password = always;
  delete_user = always;
}

guest-IsClosed_example : All (Guarded.IsClosed sample config guest calm) (
    Routes.auth_routes sample config auth_handler
    ++ Routes.media_routes sample config media_handler
    ++ Routes.share_routes sample config share_handler
    ++ Routes.friend_routes sample config friend_handler
    ++ Routes.user_routes sample config user_handler)
unfolding has_prefix
guest-IsClosed_example =
    Guarded.guest-IsClosed sample config guest calm auth_handler media_handler share_handler
      friend_handler user_handler (inl refl)
