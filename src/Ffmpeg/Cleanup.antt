-- ===== src/Ffmpeg/Cleanup.antt =====
-- What the processor leaves behind, and what an upload without a video does to the worker:
-- internal/infra/ffmpeg/processor_repo.go with internal/worker/processing_worker.go.
use ffgif.Base.{
  text_eq_iff, Bool, Bool-cases, ◌||◌, ◌⊎◌, inl, inr, ℕ, ◌+◌, ◌*◌, ◌++◌, ◌≡◌, refl, sym, subst,
  true, false, Option, none, some, List, [], ◌∷◌, arith, Text, codes, text_eq, any, delete_where,
}
use ffgif.Base.Int.{ℤ, pos, leb_ℤ}
use ffgif.Base.Parse.{parse_int}
use ffgif.World.{World, Io, ok, err, panic, External, VideoMessage, NoOutage}
use ffgif.Uploads.Service
use ffgif.Uploads.Service.{PreProcessed}
use ffgif.Workers.Handle
use ffgif.Workers.Handle.{Notification}
use ffgif.Ffmpeg.Commands
use ffgif.Ffmpeg.Commands.{Floats}
use ffgif.Ffmpeg.Probe.{FfprobeOutput}
use ffgif.Ffmpeg.Files.{IsGone, Writes, process_body-IsGone, pre_process_body-IsGone}
use ffgif.Ffmpeg.Processor
use ffgif.Ffmpeg.Processor.{
  Programs, remove, remove_all, removing, process_files, pre_process_files,
}

any-delete_own : (p : Text) (fs : List Text) → any (text_eq p) (delete_where (text_eq p) fs) ≡ false
unfolding any delete_where
any-delete_own p [] = refl
any-delete_own p (f ∷ fs) = ground (arith, any-delete_own p fs)

any-delete_other :
    (p q : Text) (fs : List Text)
    → any (text_eq p) fs ≡ false
    → any (text_eq p) (delete_where (text_eq q) fs) ≡ false
unfolding any delete_where
any-delete_other p q [] h = h
any-delete_other p q (f ∷ fs) h = ground (arith, any-delete_other p q fs)

module _ (removable : Text → Bool) where
  remove-IsGone : (p q : Text) (w : World) → IsGone p w → IsGone p (remove removable q w)
  unfolding remove
  remove-IsGone p q w h = ground (arith, any-delete_other p q w.files h)

  removed-IsGone : (p : Text) (w : World) → removable p ≡ true → IsGone p (remove removable p w)
  unfolding remove
  removed-IsGone p w r = rw r (any-delete_own p w.files)

  -- A file that is gone stays gone.
  remove_all-IsGone :
      (p : Text) (ps : List Text) (w : World) → IsGone p w → IsGone p (remove_all removable ps w)
  unfolding remove_all
  remove_all-IsGone p [] w h = h
  remove_all-IsGone p (q ∷ ps) w h =
      remove_all-IsGone p ps (remove removable q w) (remove-IsGone p q w h)

  -- A file that can be removed is gone, if it is named or was not there.
  removed :
      (p : Text) (ps : List Text) (w : World)
      → removable p ≡ true
      → (any (text_eq p) ps ≡ true) ⊎ IsGone p w
      → IsGone p (remove_all removable ps w)
  unfolding remove_all any
  removed p [] w r (inl h) = ground arith
  removed p [] w r (inr h) = h
  removed p (q ∷ ps) w r (inr h) = remove_all-IsGone p (q ∷ ps) w h
  removed p (q ∷ ps) w r (inl h) =
      let v = remove removable q w in
      elim (Bool-cases (text_eq p q)) [
        | inl e ↦ remove_all-IsGone p ps v (
            subst (λ (t : Text). IsGone p (remove removable t w)) ((text_eq_iff p q).0 e)
              (removed-IsGone p w r))
        | inr e ↦
            removed p ps v r (inl (subst (λ (b : Bool). (b || any (text_eq p) ps) ≡ true) e h))
      ]

module _ (x : External) (fl : Floats) (pr : Programs) where
  -- A conversion and the processing of an upload leave no file behind, whatever fails and even if
  -- they end in a panic: a path at which there was no file before has none after it, unless os.Remove
  -- cannot delete it there, provided that ffmpeg writes at most the file that its command line names
  -- last, and ffprobe none.
  pub process-cleans :
      (p : Text) (m : VideoMessage) (key : Text) (w : World)
      → Writes pr
      → pr.removable p ≡ true
      → IsGone p w
      → IsGone p (Processor.process x fl pr m w).1
        × IsGone p (Processor.pre_process x fl pr key w).1
  unfolding Processor.process Processor.pre_process
  process-cleans p m key w writes r h = (
    removed pr.removable p (process_files x fl pr m.key) (Processor.process_body x fl pr m w).1 r
        (process_body-IsGone p x fl pr writes m w h),
    removed pr.removable p (pre_process_files x fl pr key)
        (Processor.pre_process_body x fl pr key w).1 r
        (pre_process_body-IsGone p x fl pr writes key w h),
  )

  pre_process-panics :
      (key : Text) (out : FfprobeOutput) (size : ℤ) (w : World)
      → pr.has_upload key ≡ true
      → ((v : World)
          → (pr.probe (Commands.new_probe_exex (pr.temp (codes "raw_video_" ++ key))) v).0 ≡ ok out)
      → leb_ℤ (pos 50) out.format.probe_score ≡ true
      → parse_int 32 out.format.size ≡ some size
      → leb_ℤ size (pos (500 * 1024 * 1024)) ≡ true
      → out.stream ≡ []
      → NoOutage w
      → (Processor.pre_process x fl pr key w).0 ≡ err panic
  unfolding Processor.pre_process
  pre_process-panics key out size w there said score sized small empty up =
      let v : World = record w {
        calls = w.calls + 1;
        files = pr.temp (codes "raw_video_" ++ key) ∷ w.files;
      } in
      ground (arith, up w.calls, said v)

  upload_panics :
      (pre : Text → Io PreProcessed) (max_upload_bytes : ℕ) (key : Text) (w : World)
      → ((v : World) → v.outage ≡ w.outage → (pre key v).0 ≡ err panic)
      → text_eq key [] ≡ false
      → NoOutage w
      → (Handle.handle_upload x pre max_upload_bytes key w).0 ≡ err panic
  unfolding Handle.handle_upload text_eq
  upload_panics pre max_upload_bytes key w bad named up =
      let v : World = (Service.update_uploading_status x key (codes "processing") w).1 in
      ground (arith, up w.calls, bad v)

  -- An upload in which ffprobe finds no video stream, but which it recognises and whose size it
  -- gives as one within the bound of 500 MB, ends the worker in a panic if nothing fails: the
  -- notification is neither acknowledged nor rejected, so it stays in its queue.
  pub audio-panics :
      (max_upload_bytes : ℕ) (n : Notification) (key : Text) (out : FfprobeOutput) (size : ℤ)
      (w : World)
      → Handle.key_of (some n) ≡ some key
      → text_eq key [] ≡ false
      → pr.has_upload key ≡ true
      → ((v : World)
          → (pr.probe (Commands.new_probe_exex (pr.temp (codes "raw_video_" ++ key))) v).0 ≡ ok out)
      → leb_ℤ (pos 50) out.format.probe_score ≡ true
      → parse_int 32 out.format.size ≡ some size
      → leb_ℤ size (pos (500 * 1024 * 1024)) ≡ true
      → out.stream ≡ []
      → NoOutage w
      → (Handle.handle_notification x (Processor.pre_process x fl pr) max_upload_bytes (some n) w).0
        ≡ err panic
  unfolding Handle.handle_notification
  audio-panics max_upload_bytes n key out size w about named there said score sized small empty up =
      rw (Handle.handle_notification, about)
        (upload_panics (Processor.pre_process x fl pr) max_upload_bytes key w
          (λ v same.
            pre_process-panics key out size v there said score sized small empty
              (subst (λ (o : ℕ → Option ℕ). (k : ℕ) → o k ≡ none) (sym same) up))
          named up)
