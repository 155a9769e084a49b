-- ===== src/Tests/Workers.antt =====
-- The theorems on the workers and the processor at concrete queues.
use ffgif.Base.{
  true, ◌≡◌, refl, false, none, some, [], ◌∷◌, ◌++◌, Text, codes, text_eq, any, arith,
  contains_byte, has_prefix,
}
use ffgif.Base.Int.{pos}
use ffgif.Base.Parse.{parse_int, before}
use ffgif.World.{World, Io, ok, pure, EmailMessage, SaveVideoMessage, VideoMessage}
use ffgif.Uploads.Service
use ffgif.Uploads.Service.{PreProcessed}
use ffgif.Workers.Delivery.{acked}
use ffgif.Workers.Handle
use ffgif.Workers.Handle.{Notification}
use ffgif.Workers.Saves
use ffgif.Workers.Journey
use ffgif.Workers.Converted
use ffgif.Cache
use ffgif.Conversion.Run.{JobResult}
use ffgif.Conversion.Service as ConversionService
use ffgif.Conversion.Service.{owner_key}
use ffgif.Ffmpeg.Commands.{Floats}
use ffgif.Ffmpeg.Probe.{FfprobeOutput, Stream}
use ffgif.Ffmpeg.Processor
use ffgif.Ffmpeg.Processor.{Programs}
use ffgif.Ffmpeg.Cleanup
use ffgif.Ffmpeg.Files.{IsGone, Writes, last}
use ffgif.Tests.Sample.{sample, calm}

-- A mail to send, and a message of no known kind.
abbrev welcome : EmailMessage
welcome = record { to = codes "a@x"; name = codes "signup"; token = codes "t" }

abbrev odd : EmailMessage
odd = record welcome { name = codes "odd" }

abbrev with_mail : World
with_mail = record calm { emails = odd ∷ welcome ∷ [] }

abbrev lost : SaveVideoMessage
lost = record { key = codes "lost"; user_id = 1 ∷ []; filename = codes "lost.mp4"; retries = 0 }

abbrev with_save : World
with_save = record calm { saves = lost ∷ [] }

run_saves-Repeats_example :
    Saves.Repeats sample 3 ([], with_save) (Saves.run_saves sample 3 ([], with_save))
run_saves-Repeats_example =
    Saves.run_saves-Repeats sample 3 [] lost [] 1 with_save refl refl refl (λ n. refl)

abbrev key : Text
key = 1 ∷ 58 ∷ codes "v.mp4"

abbrev notice : Notification
notice = record { has_err = false; keys = key ∷ [] }

abbrev made : PreProcessed
made = record {
  video_key = codes "converted_" ++ (100 ∷ []) ++ codes ".mp4";
  thumbnail_key = codes "thumpnail_" ++ (101 ∷ []) ++ codes ".jpg";
  size = codes "10";
  duration = codes "2";
  content_type = codes "video/mp4";
}

abbrev floats : Floats
floats = record { sub = λ a b. 0; add = λ a b. 0; one = 1; two_digits = λ n. []; itoa = λ n. [] }

abbrev film : Stream
film = record { codec_name = codes "h264"; codec_type = codes "video" }

-- ffprobe that finds a video.
abbrev video : FfprobeOutput
video = record {
  format = record { duration = codes "2"; size = codes "10"; probe_score = pos 100 };
  stream = film ∷ [];
}

abbrev programs : Programs
programs = record {
  run = λ args w. (ok tt, record w { files = last args ∷ w.files });
  probe = λ args. pure video;
  temp = λ name. codes "/tmp/" ++ name;
  has_upload = λ k. text_eq k key;
  removable = λ path. true;
}

-- The processor of the program, with these programs.
abbrev easy : Text → Io PreProcessed
easy = Processor.pre_process sample floats programs

easy-Fits : Journey.Fits sample easy 100 key (1 ∷ []) 1 made (pos 10)
unfolding text_eq parse_int before contains_byte has_prefix
easy-Fits = record {
  named = refl;
  user_named = refl;
  keyed = refl;
  own = refl;
  read = refl;
  sized = refl;
  within = refl;
}

easy-Processes :
    Journey.Processes easy key made
      (Journey.marked sample easy 100 key (1 ∷ []) 1 made (pos 10) calm)
unfolding Processor.pre_process text_eq parse_int any
easy-Processes = record {
  goes_through = refl;
  keeps_db = refl;
  keeps_cache = refl;
  keeps_now = refl;
  keeps_outage = refl;
}

abbrev notified : World
notified = (Handle.handle_notification sample easy 100 (some notice) calm).1

notified-status_ok_example :
    ((Handle.handle_notification sample easy 100 (some notice) calm).0 ≡ ok acked)
    × ((Service.status sample (1 ∷ []) key (record notified { now = 2000 })).0
        ≡ ok (made.video_key, codes "ok"))
unfolding any Handle.handle_notification text_eq Processor.pre_process
notified-status_ok_example =
    Journey.notified-status_ok sample easy 100 key (1 ∷ []) 1 made (pos 10) notice calm
      (record notified { now = 2000 }) easy-Fits easy-Processes refl refl (λ n. refl) (λ n. refl)
      refl refl (omega arith)

abbrev ask : VideoMessage
ask = record {
  user_id = 1 ∷ [];
  job_id = 100 ∷ [];
  key = codes "cat";
  start = 0;
  end = 1;
  width = 0;
  fps = 0;
  loop = false;
  retries = 0;
}

programs-Writes : Writes programs
unfolding any
programs-Writes = record { runs = λ args p e w g. ground arith; probes = λ args p w g. g }

abbrev input_path : Text
input_path = codes "/tmp/" ++ codes "input_cat.mp4"

process-cleans_example :
    IsGone input_path (Processor.process sample floats programs ask calm).1
    × IsGone input_path (Processor.pre_process sample floats programs key calm).1
unfolding any
process-cleans_example =
    Cleanup.process-cleans sample floats programs input_path ask key calm programs-Writes refl refl

abbrev new_gif : JobResult
new_gif = record {
  gif_key = (100 ∷ []) ++ codes "_output.gif";
  thumb_key = codes "thumpnail_" ++ (101 ∷ []) ++ codes ".jpg";
}

abbrev maker : VideoMessage → Io JobResult
maker = Processor.process sample floats programs

-- The first user has asked for the conversion.
abbrev asked_for : World
asked_for = record calm {
  cache = record { key = owner_key (100 ∷ []); value = 1 ∷ []; expires = none } ∷ [];
}

abbrev finished : World
finished = (Handle.handle_video sample maker (λ e. []) (some ask) asked_for).1

maker-Converts :
    Converted.Converts maker ask new_gif
      (Converted.started sample maker (λ e. []) ask new_gif 100 1 asked_for)
unfolding Processor.process text_eq any
maker-Converts = record {
  goes_through = refl;
  keeps_db = refl;
  keeps_cache = refl;
  keeps_now = refl;
  keeps_outage = refl;
}

converted-status_completed_example :
    ((Handle.handle_video sample maker (λ e. []) (some ask) asked_for).0 ≡ ok acked)
    × ((Handle.handle_video sample maker (λ e. []) (some ask) asked_for).1.db.gifs
        ≡ asked_for.db.gifs ++ Converted.gif_row sample maker (λ e. []) ask new_gif 100 1 1000 ∷ [])
    × ((ConversionService.conversion_status sample
          (1 ∷ [])
          (100 ∷ [])
          (record finished { now = 2000 })).0
        ≡ ok (record {
          job_id = 100 ∷ [];
          status = codes "completed";
          gif_id = new_gif.gif_key;
          progress = 0;
          updated_at = 0;
        }))
unfolding any text_eq Cache.lookup Handle.handle_video Processor.process
converted-status_completed_example =
    Converted.converted-status_completed sample maker (λ e. []) ask new_gif 100 1 (1 ∷ []) asked_for
      (record finished { now = 2000 }) (record { read_job = refl; read_user = refl }) maker-Converts
      (refl, refl) (λ n. refl) (λ n. refl) refl refl (omega arith)
