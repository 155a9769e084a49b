-- ===== src/Conversion/Run.antt =====
-- internal/app/media/run_conversion.go. The video processor (internal/port/processor), which gives
-- the keys of the GIF and its thumbnail, is a parameter, and so is the text of an error.
use ffgif.Base.{◌*◌, false, [], Text, codes}
use ffgif.World.{
  Io, Result, ok, err, pure, raise, catch, ignore, ◌>>=◌, ◌>>◌, External, Error, wrap, join,
  VideoMessage, Gif, processing, done, failed,
}
use ffgif.Pkg.{minute}
use ffgif.Cache
use ffgif.User.Quotas
use ffgif.Gif.Repo as GifRepo
use ffgif.Conversion.Jobs
use ffgif.Conversion.Service.{status_key, gif_key}

-- processor.JobResult
pub record JobResult : Type 0 where
  pub gif_key : Text
  pub thumb_key : Text

-- `errors.Join(err, s.cache.Set(…))`
abbrev pub joined : Error → Result (Unit {0}) → Error
joined e (ok _) = wrap e
joined e (err e') = join e e'

-- The row of the GIF: the fields that are not named are zero.
abbrev pub gif_of : JobResult → Gif
gif_of r = record {
  key = r.gif_key;
  name = [];
  user_id = 0;
  status = [];
  persist = false;
  download = 0;
  url = r.gif_key;
  thumbnail_key = r.thumb_key;
  file_size_bytes = 0;
  width = 0;
  height = 0;
  duration_seconds = 0;
  is_public = false;
  created_at = 0;
  updated_at = 0;
}

module _ (x : External) where
  -- The job is marked as failed in the cache, and the error is given on.
  unfoldable pub fail_with : Text → Error → Io (Unit {0})
  unfolding Cache.set
  fail_with job e = do
    r ← catch (Cache.set (status_key job) (codes "failed") (5 * minute))
    raise (joined e r)

  unfoldable pub or_fail : {A : Type 0} → Text → Result A → Io (Unit {0})
  unfolding fail_with
  or_fail job (ok _) = pure tt
  or_fail job (err e) = fail_with job e

  -- The row of the GIF and the count of the user's quota.
  unfoldable pub record_gif : VideoMessage → JobResult → Io (Unit {0})
  unfolding GifRepo.create Quotas.increment_usage or_fail
  record_gif msg r = do
    created ← catch (GifRepo.create x msg.user_id (gif_of r))
    or_fail msg.job_id created
    counted ← catch (Quotas.increment_usage x msg.user_id 0 1)
    or_fail msg.job_id counted

  -- After the conversion: the state in the cache and in the row of the job.
  unfoldable pub complete : VideoMessage → JobResult → Io (Unit {0})
  unfolding Cache.set Jobs.update_status
  complete msg r = do
    Cache.set (gif_key msg.job_id) r.gif_key (5 * minute)
    Cache.set (status_key msg.job_id) (codes "completed") (5 * minute)
    ignore (Jobs.update_status x msg.job_id done 100 r.gif_key [])

  module _ (processor : VideoMessage → Io JobResult) (text_of : Error → Text) where
    unfoldable pub after_processing : VideoMessage → Result JobResult → Io (Unit {0})
    unfolding complete record_gif Jobs.update_status fail_with
    after_processing msg (ok r) = complete msg r >> record_gif msg r
    after_processing msg (err e) =
        ignore (Jobs.update_status x msg.job_id failed 0 [] (text_of e)) >> fail_with msg.job_id e

    unfoldable pub process : VideoMessage → Io (Unit {0})
    unfolding Cache.set Jobs.update_status after_processing
    process msg = do
      Cache.set (status_key msg.job_id) (codes "processing") (10 * minute)
      ignore (Jobs.update_status x msg.job_id processing 20 [] [])
      result ← catch (processor msg)
      after_processing msg result
