-- ===== src/Ffmpeg/Processor.antt =====
-- internal/infra/ffmpeg/processor_repo.go. Starting a program (os/exec), the bucket of the raw
-- uploads, and the directory for temporary files are parameters.
use ffgif.Base.{
  ℕ, ◌==◌, Bool, not, List, [], ◌∷◌, ◌++◌, Text, codes, text_eq, if◌then◌else◌, any, delete_where,
}
use ffgif.World.{
  Io, World, ok, err, pure, of_result, map_err, raise_if, ◌>>=◌, ◌>>◌, attempt, draw_uuid, External,
  wrap, message, VideoMessage,
}
use ffgif.Storage
use ffgif.Uploads.Service.{PreProcessed}
use ffgif.Conversion.Run.{JobResult}
use ffgif.Ffmpeg.Commands
use ffgif.Ffmpeg.Commands.{Floats}
use ffgif.Ffmpeg.Probe
use ffgif.Ffmpeg.Probe.{FfprobeOutput, Stream}

-- The programs: `run` starts one and waits for its end, `probe` is the decoded output of ffprobe.
pub record Programs : Type 0 where
  pub run : List Text → Io (Unit {0})
  pub probe : List Text → Io FfprobeOutput
  -- filepath.Join(os.TempDir(), name)
  pub temp : Text → Text
  -- whether the bucket of uploads has an object
  pub has_upload : Text → Bool
  -- whether os.Remove can delete a path
  pub removable : Text → Bool

-- os.Remove, which may fail; its error is not looked at.
unfoldable pub remove : (Text → Bool) → Text → World → World
remove removable path w =
    if removable path then record w { files = delete_where (text_eq path) w.files } else w

unfoldable pub remove_all : (Text → Bool) → List Text → World → World
unfolding remove
remove_all removable [] w = w
remove_all removable (path ∷ paths) w = remove_all removable paths (remove removable path w)

-- `defer os.Remove(path)` for each path: they run however the body ends, the last one first.
unfoldable pub removing : {A : Type 0} → (Text → Bool) → List Text → Io A → Io A
unfolding remove_all
removing removable paths body w = let (r, v) = body w in (r, remove_all removable paths v)

-- FGetObject of an object that is there writes the file.
unfoldable pub get_object : Bool → Text → Io (Unit {0})
unfolding attempt
get_object there path = attempt λ w.
    if there
    then (ok tt, record w { files = path ∷ w.files })
    else (err (message "The specified key does not exist."), w)

unfoldable pub download_local : Text → Text → Io (Unit {0})
unfolding get_object
download_local key path w = get_object (any (text_eq key) w.objects) path w

module _ (x : External) (fl : Floats) (pr : Programs) where
  unfoldable pub download_local_raw_video : Text → Text → Io (Unit {0})
  unfolding get_object
  download_local_raw_video key path = get_object (pr.has_upload key) path

  -- A key with a fresh id.
  unfoldable pub fresh_key : Text → Text → Io Text
  unfolding draw_uuid
  fresh_key before after = do id ← draw_uuid; pure (before ++ x.uuid_string id ++ after)

  -- `ProbeExtractor.Run`, the check, and the first stream.
  unfoldable pub checked_probe : Text → Io FfprobeOutput
  unfolding Probe.is_valid Commands.new_probe_exex
  checked_probe path = do
    result ← map_err wrap (pr.probe (Commands.new_probe_exex path))
    valid ← of_result (Probe.is_valid result)
    raise_if (not valid) (message "Invalid file")
    pure result

  -- The two uploads at the end of the conversions: the video or GIF, and its thumbnail.
  unfoldable pub upload_both : Text → Text → Io (Text × Text)
  unfolding fresh_key Storage.upload
  upload_both before after = do
    key ← fresh_key before after
    map_err wrap (Storage.upload key)
    thumb_key ← fresh_key (codes "thumpnail_") (codes ".jpg")
    map_err wrap (Storage.upload thumb_key)
    pure (key, thumb_key)

  abbrev pub or_default : ℕ → ℕ → ℕ
  or_default default n = if n == 0 then default else n

  -- The steps of `Process` on the four paths.
  unfoldable pub process_steps : VideoMessage → Text → Text → Text → Text → Io JobResult
  unfolding download_local Commands.new_gif_converter Commands.run_gif
      Commands.new_thumb_generator_exec upload_both
  process_steps m input output palette thumb = do
    map_err wrap (download_local m.key input)
    map_err wrap (
        Commands.run_gif pr.run (
          Commands.new_gif_converter fl input output palette (or_default 480 m.width)
            (or_default 10 m.fps) m.start m.end (if m.loop then codes "0" else codes "-1")))
    map_err wrap (
        map_err wrap
          (pr.run (Commands.new_thumb_generator_exec fl (fl.add m.start fl.one) input thumb)))
    (gif_key, thumb_key) ← upload_both [] (codes "_output.gif")
    pure (record { gif_key = gif_key; thumb_key = thumb_key })

  abbrev pub process_files : Text → List Text
  process_files key =
      pr.temp (codes "thumb_" ++ key ++ codes ".jpg")
      ∷ pr.temp (key ++ codes "_palette.png")
      ∷ pr.temp (key ++ codes "_output.gif")
      ∷ pr.temp (codes "input_" ++ key ++ codes ".mp4")
      ∷ []

  unfoldable pub process_body : VideoMessage → Io JobResult
  unfolding process_steps
  process_body m =
      process_steps m (pr.temp (codes "input_" ++ m.key ++ codes ".mp4"))
        (pr.temp (m.key ++ codes "_output.gif")) (pr.temp (m.key ++ codes "_palette.png"))
        (pr.temp (codes "thumb_" ++ m.key ++ codes ".jpg"))

  unfoldable pub process : VideoMessage → Io JobResult
  unfolding removing process_body
  process m = removing pr.removable (process_files m.key) (process_body m)

  -- The steps of `PreProcess` on the three paths.
  unfoldable pub pre_process_steps : Text → Text → Text → Text → Io PreProcessed
  unfolding download_local_raw_video checked_probe Commands.new_mp4_converter_exec
      Commands.new_thumb_generator_exec upload_both
  pre_process_steps key input output thumb = do
    map_err wrap (download_local_raw_video key input)
    raw ← checked_probe input
    first ← of_result (Probe.first_stream raw.stream)
    map_err wrap
        (map_err wrap (pr.run (Commands.new_mp4_converter_exec input output first.codec_name)))
    map_err wrap (map_err wrap (pr.run (Commands.new_thumb_generator_exec fl fl.one output thumb)))
    (video_key, thumb_key) ← upload_both (codes "converted_") (codes ".mp4")
    made ← checked_probe output
    pure (record {
      video_key = video_key;
      thumbnail_key = thumb_key;
      size = made.format.size;
      duration = made.format.duration;
      content_type = codes "video/mp4";
    })

  abbrev pub pre_process_files : Text → List Text
  pre_process_files key =
      pr.temp (codes "thumb_" ++ key ++ codes ".jpg")
      ∷ pr.temp (codes "converted_" ++ key ++ codes ".mp4")
      ∷ pr.temp (codes "raw_video_" ++ key)
      ∷ []

  unfoldable pub pre_process_body : Text → Io PreProcessed
  unfolding pre_process_steps
  pre_process_body key =
      pre_process_steps key (pr.temp (codes "raw_video_" ++ key))
        (pr.temp (codes "converted_" ++ key ++ codes ".mp4"))
        (pr.temp (codes "thumb_" ++ key ++ codes ".jpg"))

  unfoldable pub pre_process : Text → Io PreProcessed
  unfolding removing pre_process_body
  pre_process key = removing pr.removable (pre_process_files key) (pre_process_body key)
