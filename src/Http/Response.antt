-- ===== src/Http/Response.antt =====
-- What a handler answers (internal/transport/http/httputil/send_data.go): the status, the headers
-- that tell one answer from another, and the value that is encoded to the body. The message for
-- people that comes with the code of an error is left out.
use ffgif.Base.{ℕ, String, Option, none, some, List, [], ◌∷◌, Text}
use ffgif.World.{Gif, LastUpload, Quota, Friendship, FriendResponse, Share, ShareByToken}
use ffgif.Gif.Service.{GifResult, StreamResult}
use ffgif.Uploads.Service.{UploadResult}
use ffgif.Conversion.Service.{StatusResult}
use ffgif.User.Profiles.{ProfileResponse}

pub data Data : Type 0 where
  nothing : Data
  -- `error_code` of the body of an error
  failure : String → Data
  words : Text → Data
  fields : List (String × Text) → Data
  one_gif : Gif → Data
  gif_list : List Gif → Data
  gif_page : GifResult → Data
  stream_link : StreamResult → Data
  upload_link : UploadResult → Data
  last_upload : LastUpload → Data
  job_state : StatusResult → Data
  profile_data : ProfileResponse → Data
  quota_data : Quota → Data
  friendship_data : Friendship → Data
  friend_list : List FriendResponse → Data
  share_list : List Share → Data
  share_link : ShareByToken → Data

pub record Response : Type 0 where
  pub status : ℕ
  pub body : Data
  -- the headers WWW-Authenticate, Location and ETag
  pub challenge : Option String
  pub location : Option Text
  pub etag : Option Text
  -- what the middleware sets besides, the first one first
  pub headers : List (String × Text)

-- httputil.SendJson
abbrev pub reply : ℕ → Data → Response
reply status body = record {
  status = status;
  body = body;
  challenge = none;
  location = none;
  etag = none;
  headers = [];
}

-- httputil.SendError
abbrev pub send_error : String → ℕ → Response
send_error code status = reply status (failure code)

-- 401 with a challenge.
abbrev pub unauthorized : String → Response
unauthorized challenge = record (send_error "AUTH_INVALID_CREDENTIALS" 401) {
  challenge = some challenge;
}

abbrev pub located : Text → Response → Response
located path r = record r { location = some path }

abbrev pub tagged : Text → Response → Response
tagged tag r = record r { etag = some tag }

-- `w.Header().Set` of a middleware, before the rest of the chain answers.
abbrev pub with_header : String → Text → Response → Response
with_header name value r = record r { headers = (name, value) ∷ r.headers }
