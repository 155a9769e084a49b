-- ===== src/Conversion/Service.antt =====
-- internal/app/media/convert.go and conversion_status.go. The lock per user of
-- `Convert` changes nothing for calls one after the other, and the count that it adds to its copy
-- of the quota is lost.
use ffgif.Base.{
  ℕ, ◌*◌, ltb, leb, Bool, false, ◌&&◌, not, [], ◌++◌, Text, codes, text_eq, has_prefix,
  contains_byte, if◌then◌else◌,
}
use ffgif.World.{
  Io, Result, ok, err, pure, raise, draw_uuid, catch, map_err, ignore, raise_if, ◌>>=◌, ◌>>◌,
  publish_video, External, Error, known, wrap, join, errors_is, cache_miss, gif_owner_mismatch,
  quota_exceeded, cache_set_failed, cache_get_failed, message_queue_failed, VideoMessage, Quota,
  queued, failed,
}
use ffgif.Pkg.{minute}
use ffgif.Cache
use ffgif.User.Quotas
use ffgif.Conversion.Jobs

abbrev pub owner_key : Text → Text
owner_key job = codes "messaage_queue_owner:job_id:" ++ job

abbrev pub status_key : Text → Text
status_key job = codes "messaage_queue:job_id:" ++ job

abbrev pub gif_key : Text → Text
gif_key job = codes "messaage_queue_gif:job_id:" ++ job

-- The key of an upload begins with the id of its user and a colon (58).
abbrev pub is_foreign : Text → Text → Bool
is_foreign key user = contains_byte key 58 && not (has_prefix key (user ++ codes ":"))

abbrev pub is_spent : Result Quota → Bool
is_spent (ok q) = ltb 0 q.gif_count && leb q.gif_limit q.gif_count
is_spent (err e) = false

-- What the caller asks for, besides the ids.
abbrev pub message_of : VideoMessage → Text → Text → VideoMessage
message_of ask user job = record ask { user_id = user; job_id = job; retries = 0 }

-- StatusResult
pub record StatusResult : Type 0 where
  pub job_id : Text
  pub status : Text
  pub gif_id : Text
  pub progress : ℕ
  pub updated_at : ℕ

module _ (x : External) where
  -- What `Convert` does when the queue has refused the message.
  unfoldable pub give_up : Text → Error → Io Text
  unfolding Cache.set Jobs.update_status
  give_up job e = do
    ignore (Cache.set (status_key job) (codes "failed") (5 * minute))
    ignore (Cache.set (gif_key job) (codes "failed") (5 * minute))
    ignore (Jobs.update_status x job failed 0 [] (codes "queue publish failed"))
    raise (join (known message_queue_failed) e)

  -- The end of `Convert`, by what the queue answered.
  unfoldable pub published : Text → Result (Unit {0}) → Io Text
  unfolding give_up
  published job (ok _) = pure job
  published job (err e) = give_up job e

  -- The checks of `Convert`: the owner of the upload and the quota.
  unfoldable pub may_convert : Text → Text → Io (Unit {0})
  unfolding Quotas.get_by_id
  may_convert user key = do
    raise_if (is_foreign key user) (known gif_owner_mismatch)
    quota ← catch (Quotas.get_by_id x user)
    raise_if (is_spent quota) (known quota_exceeded)

  -- The entries of the cache and the row of a new job.
  unfoldable pub announce : Text → Text → Io (Unit {0})
  unfolding Cache.set Jobs.create
  announce user job = do
    map_err (join (known cache_set_failed)) (Cache.set (owner_key job) user (5 * minute))
    map_err (join (known cache_set_failed))
        (Cache.set (status_key job) (codes "queued") (5 * minute))
    map_err (join (known cache_set_failed)) (Cache.set (gif_key job) (codes "queued") (5 * minute))
    map_err wrap (Jobs.create x job user (codes "video_to_gif") queued 0)

  unfoldable pub publish : Text → VideoMessage → Text → Io Text
  unfolding publish_video published
  publish user ask job = do
    answer ← catch (publish_video (message_of ask user job))
    published job answer

  -- The id of the job; `ask` holds the key and the wishes.
  unfoldable pub convert : Text → VideoMessage → Io Text
  unfolding may_convert draw_uuid announce publish
  convert user ask = do
    may_convert user ask.key
    id ← draw_uuid
    announce user (x.uuid_string id)
    publish user ask (x.uuid_string id)

  -- The row of the job, when the cache has not answered.
  unfoldable pub fallback : Text → Text → Error → Io StatusResult
  unfolding Jobs.get_by_id
  fallback user job_id e = do
    found ← catch (Jobs.get_by_id x job_id)
    elim found [
      | ok job ↦
          if not (text_eq (x.uuid_string job.user_id) user)
          then raise (known gif_owner_mismatch)
          else pure (record {
            job_id = x.uuid_string job.id;
            status = Jobs.status_text job.status;
            gif_id = job.result_key;
            progress = job.progress;
            updated_at = job.updated_at;
          })
      | err _ ↦ raise e
    ]

  -- The error when neither answers.
  abbrev pub unknown : Error → Error
  unknown e = if errors_is e cache_miss then wrap (known cache_get_failed) else wrap e

  abbrev pub or_empty : Result Text → Text
  or_empty (ok t) = t
  or_empty (err e) = []

  -- The state of a job whose owner the cache knows to be the user.
  unfoldable pub cached_status : Text → Text → Io StatusResult
  unfolding Cache.get fallback
  cached_status user job_id = do
    val ← catch (Cache.get (status_key job_id))
    elim val [
      | ok status ↦ do
        gif ← catch (Cache.get (gif_key job_id))
        pure (record {
          job_id = job_id;
          status = status;
          gif_id = or_empty gif;
          progress = 0;
          updated_at = 0;
        })
      | err e ↦ fallback user job_id (wrap (known cache_get_failed))
    ]

  unfoldable pub conversion_status : Text → Text → Io StatusResult
  unfolding Cache.get cached_status fallback
  conversion_status user job_id = do
    owner ← catch (Cache.get (owner_key job_id))
    elim owner [
      | ok o ↦
          if not (text_eq o user)
          then raise (known gif_owner_mismatch)
          else cached_status user job_id
      | err e ↦ fallback user job_id (unknown e)
    ]
