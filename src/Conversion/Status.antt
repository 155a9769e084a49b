-- ===== src/Conversion/Status.antt =====
-- Who is told the state of a job: internal/app/media/conversion_status.go.
use ffgif.Base.{ℕ, ◌≡◌, false, some, arith, Text, text_eq, find?, Option-cases, inl, inr}
use ffgif.World.{World, External, Job}
use ffgif.Cache
use ffgif.Gif.Ownership.{IsRefused}
use ffgif.Conversion.Jobs
use ffgif.Conversion.Service

module _ (x : External) where
  fallback-IsRefused :
      (user job_id : Text) (i : ℕ) (j : Job) (e : _) (w : World)
      → x.uuid_parse job_id ≡ some i
      → find? (Jobs.is_job i) w.db.jobs ≡ some j
      → text_eq (x.uuid_string j.user_id) user ≡ false
      → IsRefused w (Service.fallback x user job_id e w)
  unfolding Service.fallback
  fallback-IsRefused user job_id i j e w parsed found foreign = ground arith

  -- Whatever fails outside, a user is not told the state of a job of another user: if the row of
  -- the job is another's, and the cache names no owner of the job or another one, then
  -- `ConversionStatus` fails and changes no table and no stored object.
  pub conversion_status-IsRefused :
      (user job_id : Text) (i : ℕ) (j : Job) (w : World)
      → x.uuid_parse job_id ≡ some i
      → find? (Jobs.is_job i) w.db.jobs ≡ some j
      → text_eq (x.uuid_string j.user_id) user ≡ false
      → ((o : Text)
          → Cache.lookup (Service.owner_key job_id) w.now w.cache ≡ some o
          → text_eq o user ≡ false)
      → IsRefused w (Service.conversion_status x user job_id w)
  unfolding Service.conversion_status
  conversion_status-IsRefused user job_id i j w parsed found foreign others =
      elim (Option-cases (Cache.lookup (Service.owner_key job_id) w.now w.cache)) [
        | inl n ↦ ground arith
        | inr (o, n) ↦ ground (arith, others o n)
      ]
