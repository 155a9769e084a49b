-- ===== src/Workers/Pool/Instances.antt =====
-- The four workers that cmd/worker/main.go starts, as the loop with their handlers and as many slots
-- as it names.
use ffgif.Base.{ℕ, Option, Text}
use ffgif.World.{World, Io, External, Error, EmailMessage, VideoMessage, SaveVideoMessage}
use ffgif.Conversion.Run.{JobResult}
use ffgif.Uploads.Service.{PreProcessed}
use ffgif.Workers.Handle
use ffgif.Workers.Handle.{Notification}
use ffgif.Workers.Pool.{Pool, Step}
use ffgif.Workers.Pool.Mails.{mail_handler}

-- The state that a handler leaves.
abbrev left_by : {D A : Type 0} → (D → Io A) → D → World → World
left_by handle d w = (handle d w).1

abbrev pub EmailStep :
    Text → Pool (Option EmailMessage) World → Pool (Option EmailMessage) World → Type 0
EmailStep from = Step 10 (mail_handler from)

module _ (x : External) where
  abbrev pub VideoStep :
      (VideoMessage → Io JobResult)
      → (Error → Text)
      → Pool (Option VideoMessage) World
      → Pool (Option VideoMessage) World
      → Type 0
  VideoStep processor text_of = Step 2 (left_by (Handle.handle_video x processor text_of))

  abbrev pub SaveStep :
      Pool (Option SaveVideoMessage) World → Pool (Option SaveVideoMessage) World → Type 0
  SaveStep = Step 5 (left_by (Handle.handle_save x))

  abbrev pub ProcessingStep :
      (Text → Io PreProcessed)
      → ℕ
      → Pool (Option Notification) World
      → Pool (Option Notification) World
      → Type 0
  ProcessingStep pre_process max_upload_bytes =
      Step 3 (left_by (Handle.handle_notification x pre_process max_upload_bytes))
