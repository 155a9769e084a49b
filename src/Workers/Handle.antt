-- ===== src/Workers/Handle.antt =====
-- The `handle` methods of internal/worker. A delivery is what json.Unmarshal makes of its body,
-- `none` if it fails. Logging is left out.
use ffgif.Base.{ℕ, Bool, Option, none, some, List, [], ◌∷◌, Text, codes, text_eq, if◌then◌else◌}
use ffgif.Base.Parse.{query_unescape}
use ffgif.World.{
  Io, Result, ok, err, panic, pure, raise, catch, ignore, ◌>>=◌, ◌>>◌, External, Error, errors_is,
  invalid_user_id, EmailMessage, VideoMessage, SaveVideoMessage,
}
use ffgif.Mailer
use ffgif.Uploads.Service as Uploads
use ffgif.Uploads.Service.{PreProcessed}
use ffgif.Conversion.Run
use ffgif.Conversion.Run.{JobResult}
use ffgif.Workers.Delivery.{Settlement, acked, dead, requeued, unsettled, settle}

-- The settlement after a call: acknowledged if it succeeds, rejected if not.
unfoldable pub ack_or_reject : {A : Type 0} → Result A → Io Settlement
unfolding settle
ack_or_reject (ok _) = settle acked
ack_or_reject (err _) = settle dead

-- The mail that a message asks for, by its name; `none` if the name is unknown.
unfoldable pub mail_of : Text → EmailMessage → Option (Io (Unit {0}))
unfolding text_eq Mailer.send_verification_token Mailer.send_reset_password
    Mailer.send_reset_notification Mailer.send_share_notification
mail_of from msg =
    if text_eq msg.name (codes "signup")
    then some (Mailer.send_verification_token from msg.to msg.token)
    else if text_eq msg.name (codes "forgot-password")
    then some (Mailer.send_reset_password from msg.to msg.token)
    else if text_eq msg.name (codes "resend-verify")
    then some (Mailer.send_verification_token from msg.to msg.token)
    else if text_eq msg.name (codes "reset-password")
    then some (Mailer.send_reset_notification from msg.to)
    else if text_eq msg.name (codes "share")
    then some (Mailer.send_share_notification from msg.to msg.token)
    else none

-- EmailWorker.handle
unfoldable pub handle_email : Text → Option EmailMessage → Io Settlement
unfolding mail_of settle ack_or_reject
handle_email from none = settle dead
handle_email from (some msg) = elim (mail_of from msg) [
  | none ↦ settle dead
  | some send ↦ catch send >>= ack_or_reject
]

-- A notification of MinIO, as far as it is read: whether it carries an error, and the keys of
-- its records, which are escaped.
pub record Notification : Type 0 where
  pub has_err : Bool
  pub keys : List Text

-- The key that a delivery is about, if it is about one.
unfoldable pub key_of : Option Notification → Option Text
unfolding query_unescape
key_of none = none
key_of (some n) = elim n.keys [
  | [] ↦ none
  | key ∷ keys ↦ if n.has_err then none else query_unescape key
]

module _ (x : External) where
  -- VideoWorker.handle
  unfoldable pub handle_video :
      (VideoMessage → Io JobResult) → (Error → Text) → Option VideoMessage → Io Settlement
  unfolding settle ack_or_reject Run.process
  handle_video processor text_of none = settle dead
  handle_video processor text_of (some msg) =
      catch (Run.process x processor text_of msg) >>= ack_or_reject

  -- SaveVideoWorker.handle: an error other than the one on the user id puts the message back.
  unfoldable pub settle_save : Result (Unit {0}) → Io Settlement
  unfolding settle
  settle_save (ok _) = settle acked
  settle_save (err e) = if errors_is e invalid_user_id then settle dead else settle requeued

  unfoldable pub handle_save : Option SaveVideoMessage → Io Settlement
  unfolding settle settle_save Uploads.save_metadata
  handle_save none = settle dead
  handle_save (some msg) = catch (Uploads.save_metadata x msg) >>= settle_save

  -- The end of ProcessingWorker.handle: the status is "ok" only once the acknowledgement is out.
  unfoldable pub finish_upload : Text → Settlement → Io Settlement
  unfolding Uploads.update_uploading_status
  finish_upload key acked = do
    ignore (Uploads.update_uploading_status x key (codes "ok"))
    pure acked
  finish_upload key dead = pure dead
  finish_upload key requeued = pure requeued
  finish_upload key unsettled = pure unsettled

  -- A panic ends the worker before it settles the delivery.
  unfoldable pub settle_upload : Text → Result (Unit {0}) → Io Settlement
  unfolding settle finish_upload Uploads.update_uploading_status
  settle_upload key (ok _) = settle acked >>= finish_upload key
  settle_upload key (err panic) = raise panic
  settle_upload key (err _) =
      ignore (Uploads.update_uploading_status x key (codes "failed")) >> settle dead

  -- ProcessingWorker.handle on a key.
  unfoldable pub handle_upload : (Text → Io PreProcessed) → ℕ → Text → Io Settlement
  unfolding settle settle_upload Uploads.update_uploading_status Uploads.process_and_save
  handle_upload pre_process max_upload_bytes key = do
    marked ← catch (Uploads.update_uploading_status x key (codes "processing"))
    elim marked [
      | err _ ↦ settle dead
      | ok _ ↦
          catch (Uploads.process_and_save x pre_process max_upload_bytes key) >>= settle_upload key
    ]

  -- ProcessingWorker.handle
  unfoldable pub handle_notification :
      (Text → Io PreProcessed) → ℕ → Option Notification → Io Settlement
  unfolding settle key_of handle_upload
  handle_notification pre_process max_upload_bytes d = elim (key_of d) [
    | none ↦ settle dead
    | some key ↦ handle_upload pre_process max_upload_bytes key
  ]
