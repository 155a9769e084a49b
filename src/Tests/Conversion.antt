-- ===== src/Tests/Conversion.antt =====
-- The theorems on conversions at concrete worlds.
use ffgif.Base.{refl, true, [], ◌∷◌, arith, Text, codes, find?, text_eq}
use ffgif.World.{Io, err, driver, World, VideoMessage, Job, done}
use ffgif.Cache
use ffgif.Gif.Ownership.{IsRefused}
use ffgif.Conversion.Service
use ffgif.Conversion.Queued
use ffgif.Conversion.Status
use ffgif.Conversion.Run.{JobResult}
use ffgif.Tests.Sample.{sample, tables, calm}

abbrev ann_id : Text
ann_id = 1 ∷ []

abbrev bob_id : Text
bob_id = 2 ∷ []

-- The first user's upload.
abbrev ask : VideoMessage
ask = record {
  user_id = [];
  job_id = [];
  key = 1 ∷ codes ":v.mp4";
  start = 0;
  end = 3;
  width = 480;
  fps = 10;
  loop = true;
  retries = 0;
}

convert-Queues_example :
    Queued.Queues sample ann_id 1 100 ask calm (Service.convert sample ann_id ask calm)
convert-Queues_example = Queued.convert-Queues sample ann_id 1 100 ask calm refl refl

abbrev job : Job
job = record {
  id = 60;
  user_id = 1;
  type = codes "video_to_gif";
  status = done;
  progress = 100;
  error_message = [];
  result_key = codes "cat";
  created_at = 0;
  updated_at = 0;
}

abbrev converted : World
converted = record calm { db = record tables { jobs = job ∷ [] } }

conversion_status-IsRefused_example :
    IsRefused converted (Service.conversion_status sample bob_id (60 ∷ []) converted)
unfolding find? text_eq Cache.lookup
conversion_status-IsRefused_example =
    Status.conversion_status-IsRefused sample bob_id (60 ∷ []) 60 job converted refl refl refl
      (λ o e. ground arith)

abbrev message : VideoMessage
message = record ask { user_id = ann_id; job_id = 60 ∷ [] }

-- A processor that always fails.
abbrev broken : VideoMessage → Io JobResult
broken m v = (err (driver 3), v)
