-- ===== src/Conversion/Failed.antt =====
-- The run of a conversion that the processor gives up: internal/app/media/run_conversion.go.
use ffgif.Base.{ℕ, ◌+◌, ◌*◌, ◌≡◌, some, [], ◌∷◌, arith, Text, codes, update_where, text_eq_refl}
use ffgif.World.{
  World, Io, Result, ok, err, External, Error, NoOutage, VideoMessage, failed, processing,
}
use ffgif.Pkg.{minute}
use ffgif.Cache
use ffgif.Conversion.Jobs
use ffgif.Conversion.Service.{status_key}
use ffgif.Conversion.Run
use ffgif.Conversion.Run.{JobResult}

-- The call fails, and the cache and the row of the job say so; other tables are as they were.
abbrev pub Fails : VideoMessage → ℕ → Text → World → Result (Unit {0}) × World → Type 0
Fails msg i text w (ok _, w') = ⊥
Fails msg i text w (err _, w') =
    (Cache.lookup (status_key msg.job_id) w'.now w'.cache ≡ some (codes "failed"))
    × (w'.db ≡ record w.db {
      jobs =
          update_where (Jobs.is_job i)
            (λ j. record j {
              status = failed;
              progress = 0;
              result_key = [];
              error_message = text;
              updated_at = w.now;
            })
            (update_where (Jobs.is_job i)
              (λ j. record j {
                status = processing;
                progress = 20;
                result_key = [];
                error_message = [];
                updated_at = w.now;
              })
              w.db.jobs);
    })

-- The world in which the processor starts.
abbrev started : VideoMessage → ℕ → World → World
started msg i w = record w {
  calls = w.calls + 1 + 1;
  cache =
      record {
        key = status_key msg.job_id;
        value = codes "processing";
        expires = some (w.now + 10 * minute);
      }
      ∷ w.cache;
  db = record w.db {
    jobs =
        update_where (Jobs.is_job i)
          (λ j. record j {
            status = processing;
            progress = 20;
            result_key = [];
            error_message = [];
            updated_at = w.now;
          })
          w.db.jobs;
  };
}

-- If the video processor fails, having changed nothing, and nothing else fails, then `Process`
-- fails, and both the cache and the row of the job say that the job has failed, the row with the
-- text of the processor's error; no other table changes.
pub process-Fails :
    (x : External) (processor : VideoMessage → Io JobResult) (text_of : Error → Text)
    (msg : VideoMessage) (i : ℕ) (e : Error) (w : World)
    → NoOutage w
    → x.uuid_parse msg.job_id ≡ some i
    → ((v : World) → processor msg v ≡ (err e, v))
    → Fails msg i (text_of e) w (Run.process x processor text_of msg w)
unfolding Run.process Run.after_processing Run.fail_with Cache.lookup
process-Fails x processor text_of msg i e w up parsed gives_up = ground (
  arith,
  gives_up (started msg i w),
  up w.calls,
  up (w.calls + 1),
  up (w.calls + 1 + 1),
  up (w.calls + 1 + 1 + 1),
  text_eq_refl (status_key msg.job_id),
)
