-- ===== src/Handlers/Uploads.antt =====
-- internal/transport/http/handlers/media, the handlers of the routes under /uploads and /jobs
use ffgif.Base.{ℕ, leb, Bool, ◌||◌, [], ◌∷◌, ◌++◌, Text, codes, text_eq, if◌then◌else◌}
use ffgif.World.{
  Io, pure, External, Error, errors_is, cache_get_failed, empty_key, last_video_not_found,
  LastUpload, VideoMessage,
}
use ffgif.Gif.Service as GifService
use ffgif.Uploads.Service
use ffgif.Uploads.Service.{UploadResult}
use ffgif.Conversion.Service as ConversionService
use ffgif.Http.Response.{
  Response, fields, stream_link, upload_link, last_upload, job_state, reply, send_error, located,
}
use ffgif.Handlers.Request.{
  Context, Decoded, invalid, internal_error, user_or, with_user, with_value, with_body, answer,
  any_error,
}

-- A time is the bits of a float32, which from 0 on are ordered as the floats are.
pub record ConvertRequ : Type 0 where
  pub key : Text
  pub start : ℕ
  pub end : ℕ
  pub width : ℕ
  pub fps : ℕ
  pub loop : Bool

unfoldable pub job_error : Error → Response
job_error e =
    if errors_is e cache_get_failed || errors_is e empty_key
    then send_error "JOB_NOT_FOUND" 404
    else internal_error

unfoldable pub video_error : Error → Response
video_error e =
    if errors_is e last_video_not_found then send_error "GIF_NOT_FOUND" 404 else internal_error

-- The arguments of the service.
abbrev pub ask_of : ConvertRequ → VideoMessage
ask_of req = record {
  user_id = [];
  job_id = [];
  key = req.key;
  start = req.start;
  end = req.end;
  width = req.width;
  fps = req.fps;
  loop = req.loop;
  retries = 0;
}

-- The answer to `Status`: a Location only for an upload that is ready.
unfoldable pub status_reply : Text × Text → Response
status_reply (key, status) =
    let body = reply 200 (fields (("status", status) ∷ [])) in
    if text_eq status (codes "ok")
    then located (codes "/uploads/" ++ key ++ codes "/stream") body
    else body

module _ (x : External) where
  -- The body holds the name of the file.
  unfoldable pub upload : (Text → Bool) → Context → Decoded Text → Io Response
  unfolding Service.upload
  upload validate ctx body = with_body validate body λ filename. user_or internal_error ctx λ user.
      answer (Service.upload x filename user) any_error λ (result : UploadResult).
        located (codes "/uploads/" ++ result.key) (reply 201 (upload_link result))

  unfoldable pub status : Context → Text → Io Response
  unfolding Service.status status_reply
  status ctx key =
      with_value key
        (with_user ctx λ user. answer (Service.status x user key) any_error status_reply)

  unfoldable pub last_video : Context → Io Response
  unfolding Service.last_video video_error
  last_video ctx = with_user ctx λ user.
      answer (Service.last_video x user) video_error λ (result : LastUpload).
        located (codes "/uploads/" ++ result.file_key ++ codes "/stream")
          (reply 200 (last_upload result))

  unfoldable pub stream : Context → Text → Io Response
  unfolding GifService.stream
  stream ctx key = with_value key (
      user_or internal_error ctx
        λ user. answer (GifService.stream x key) any_error λ res. reply 200 (stream_link res))

  unfoldable pub convert : (ConvertRequ → Bool) → Context → Decoded ConvertRequ → Io Response
  unfolding ConversionService.convert
  convert validate ctx body = with_body validate body λ (req : ConvertRequ).
      if leb req.end req.start
      then pure invalid
      else with_user ctx λ user.
        answer (ConversionService.convert x user (ask_of req)) any_error λ job.
          located (codes "/jobs/" ++ job ++ codes "/status")
            (reply 202 (fields (("job_id", job) ∷ ("status", codes "queued") ∷ [])))

  unfoldable pub conversion_status : Context → Text → Io Response
  unfolding ConversionService.conversion_status job_error
  conversion_status ctx job_id = with_user ctx λ user. with_value job_id (
      answer (ConversionService.conversion_status x user job_id) job_error
        λ result. reply 200 (job_state result))
