-- ===== src/Uploads/Service.antt =====
-- internal/app/media: the methods on uploads, upload.go, update_upload_status.go, status.go,
-- process_and_save.go, save_metadata.go and last_video.go. The video processor
-- (internal/port/processor) is a parameter.
use ffgif.Base.{
  ℕ, ◌*◌, ltb, leb, Bool, false, not, ◌||◌, ◌&&◌, Option, none, some, [], ◌∷◌, ◌++◌, Text, codes,
  text_eq, has_prefix, contains_byte, if◌then◌else◌,
}
use ffgif.Base.Int.{pos, leb_ℤ}
use ffgif.Base.Parse.{file_ext, before, parse_int}
use ffgif.World.{
  Io, Result, ok, err, panic, pure, gets, raise, of_result, catch, map_err, raise_if, ◌>>=◌, ◌>>◌,
  draw_uuid, publish_retry_save_video, External, Error, known, wrap, join, message, errors_is,
  no_rows, cache_miss, gif_owner_mismatch, quota_exceeded, invalid_ext, empty_key, invalid_filetype,
  invalid_user_id, last_video_not_found, Quota, LastUpload, SaveVideoMessage, Info,
}
use ffgif.Pkg.{minute}
use ffgif.Cache
use ffgif.Storage
use ffgif.User.Quotas
use ffgif.Uploads.LastVideos

-- media.UploadResult
pub record UploadResult : Type 0 where
  pub url : Text
  pub key : Text
  pub expire_in : ℕ

-- processor.PrePrecessedResult
pub record PreProcessed : Type 0 where
  pub video_key : Text
  pub thumbnail_key : Text
  pub size : Text
  pub duration : Text
  pub content_type : Text

abbrev pub lookup_key : Text → Text
lookup_key key = codes "uploading:" ++ key

-- The key of an upload: the user, a colon (58), a uuid, the extension.
abbrev pub upload_key : Text → Text → Text → Text
upload_key user id ext = user ++ 58 ∷ (id ++ ext)

abbrev pub seperate_user_id : Text → Text
seperate_user_id key = before 58 key

-- The key names an owner, and another one than the user.
abbrev pub is_foreign : Text → Text → Bool
is_foreign key user = contains_byte key 58 && not (has_prefix key (user ++ codes ":"))

abbrev pub is_full : Result Quota → Bool
is_full (ok q) = ltb 0 q.total_bytes && leb q.total_bytes q.used_bytes
is_full (err e) = false

abbrev pub parsed : {A : Type 0} → Error → Option A → Result A
parsed e none = err e
parsed e (some a) = ok a

-- A cache that has no entry stands for a failed upload.
abbrev pub cached : Result Text → Result Text
cached (ok status) = ok status
cached (err e) = if errors_is e cache_miss then ok (codes "failed") else err e

abbrev pub last_video_error : Error → Error
last_video_error e = if errors_is e no_rows then join (known last_video_not_found) e else wrap e

-- A panic of the processor is not an error that is returned.
abbrev pub pre_error : Error → Error
pre_error panic = panic
pre_error e = join (known invalid_filetype) e

module _ (x : External) where
  unfoldable pub update_uploading_status : Text → Text → Io (Unit {0})
  unfolding Cache.set
  update_uploading_status key status = Cache.set (lookup_key key) status (5 * minute)

  unfoldable pub upload : Text → Text → Io UploadResult
  unfolding Quotas.get_by_id draw_uuid Storage.create update_uploading_status file_ext
  upload filename user = do
    let ext = file_ext filename
    raise_if (text_eq ext [] || text_eq ext (codes ".")) (known invalid_ext)
    quota ← catch (Quotas.get_by_id x user)
    raise_if (is_full quota) (known quota_exceeded)
    id ← draw_uuid
    let key = upload_key user (x.uuid_string id) ext
    url ← Storage.create x key (5 * minute)
    update_uploading_status key (codes "uploading")
    pure (record { url = url; key = key; expire_in = 300 })

  unfoldable pub last_video : Text → Io LastUpload
  unfolding LastVideos.get_last_video
  last_video user = map_err last_video_error (LastVideos.get_last_video x user)

  -- The key to stream and the status. An error comes with no status here.
  unfoldable pub status : Text → Text → Io (Text × Text)
  unfolding Cache.get LastVideos.get_last_video
  status user key = do
    raise_if (is_foreign key user) (known gif_owner_mismatch)
    entry ← catch (Cache.get (lookup_key key))
    state ← of_result (cached entry)
    if not (text_eq state (codes "ok")) then pure ([], state) else do
      resp ← map_err last_video_error (LastVideos.get_last_video x user)
      pure (resp.file_key, state)

  -- What `ProcessAndSave` does with the result of the processor.
  unfoldable pub save_processed : ℕ → Text → PreProcessed → Io (Unit {0})
  unfolding LastVideos.create parse_int before
  save_processed max_upload_bytes key res = do
    let user = seperate_user_id key
    raise_if (text_eq user []) (message "Empty user id")
    size ← of_result (parsed (message "strconv failed") (parse_int 64 res.size))
    raise_if (not (leb_ℤ size (pos max_upload_bytes)))
        (message "uploaded file exceeds max allowed size")
    u ← of_result (parsed (message "user id uuid convertion failed") (x.uuid_parse user))
    now ← gets (λ w. w.now)
    map_err wrap (
        LastVideos.create (record {
          user_id = u;
          file_key = res.video_key;
          filename = [];
          content_type = res.content_type;
          size_bytes = some size;
          thumbnail_url = some res.thumbnail_key;
          uploaded_at = now;
          updated_at = 0;
        }))

  unfoldable pub process_and_save : (Text → Io PreProcessed) → ℕ → Text → Io (Unit {0})
  unfolding save_processed
  process_and_save pre_process max_upload_bytes key = do
    raise_if (text_eq key []) (known empty_key)
    res ← map_err pre_error (pre_process key)
    save_processed max_upload_bytes key res

  -- `SaveMetadata`, when the storage does not know the object: the message goes to the queue of
  -- retries, and the error is given on.
  unfoldable pub retry_save : SaveVideoMessage → Error → Io (Unit {0})
  unfolding publish_retry_save_video
  retry_save msg e = do
    published ← catch (publish_retry_save_video msg)
    elim published [ ok _ ↦ raise e | err e' ↦ raise (join e e') ]

  unfoldable pub save_info : SaveVideoMessage → ℕ → Result Info → Io (Unit {0})
  unfolding retry_save LastVideos.create
  save_info msg u (err e) = retry_save msg e
  save_info msg u (ok info) = LastVideos.create (record {
    user_id = u;
    file_key = msg.key;
    filename = msg.filename;
    content_type = info.content_type;
    size_bytes = some info.size;
    thumbnail_url = none;
    uploaded_at = info.uploaded_at;
    updated_at = 0;
  })

  unfoldable pub save_metadata : SaveVideoMessage → Io (Unit {0})
  unfolding Storage.status save_info
  save_metadata msg = do
    u ← of_result (parsed (known invalid_user_id) (x.uuid_parse msg.user_id))
    found ← catch (Storage.status msg.key)
    save_info msg u found
