-- ===== src/Conversion/Jobs.antt =====
-- internal/infra/postgres/job_repo.go over the table jobs. The column status is a text; the program
-- writes only the four of internal/domain/media/job.go.
use ffgif.Base.{
  ℕ, ◌==◌, Bool, not, none, some, List, [], ◌∷◌, ◌++◌, Text, codes, any, find?, update_where,
  if◌then◌else◌,
}
use ffgif.World.{
  Io, ok, err, gets, of_result, ◌>>=◌, ◌>>◌, raise_if, modify_db, attempt, External, cast_uuid,
  known, job_not_found, sql_refused, Job, JobStatus, queued, processing, done, failed,
}
use ffgif.Auth.Users.{has_id}

abbrev pub status_text : JobStatus → Text
status_text queued = codes "queued"
status_text processing = codes "processing"
status_text done = codes "done"
status_text failed = codes "failed"

abbrev pub is_job : ℕ → Job → Bool
is_job id j = j.id == id

-- `on conflict (id) do update`
unfoldable pub upsert : Job → List Job → List Job
upsert row jobs =
    if any (is_job row.id) jobs
    then update_where (is_job row.id)
        (λ j. record j {
          status = row.status;
          progress = row.progress;
          error_message = row.error_message;
          result_key = row.result_key;
          updated_at = row.updated_at;
        })
        jobs
    else jobs ++ row ∷ []

-- A job of the type that the program creates; its ids come as texts.
unfoldable pub create : External → Text → Text → Text → JobStatus → ℕ → Io (Unit {0})
unfolding attempt cast_uuid upsert
create x id user type status progress = attempt do
  i ← cast_uuid x id
  u ← cast_uuid x user
  now ← gets (λ w. w.now)
  db ← gets (λ w. w.db)
  raise_if (not (any (has_id u) db.users)) sql_refused
  let row : Job = record {
    id = i;
    user_id = u;
    type = type;
    status = status;
    progress = progress;
    error_message = [];
    result_key = [];
    created_at = now;
    updated_at = now;
  }
  modify_db (λ db. record db { jobs = upsert row db.jobs })

unfoldable pub get_by_id : External → Text → Io Job
unfolding attempt cast_uuid
get_by_id x id = attempt do
  i ← cast_uuid x id
  found ← gets (λ w. find? (is_job i) w.db.jobs)
  of_result (elim found [ none ↦ err (known job_not_found) | some j ↦ ok j ])

unfoldable pub update_status : External → Text → JobStatus → ℕ → Text → Text → Io (Unit {0})
unfolding attempt cast_uuid
update_status x id status progress result_key error_message = attempt do
  i ← cast_uuid x id
  now ← gets (λ w. w.now)
  modify_db (λ db. record db {
    jobs =
        update_where (is_job i)
          (λ j. record j {
            status = status;
            progress = progress;
            result_key = result_key;
            error_message = error_message;
            updated_at = now;
          })
          db.jobs;
  })
