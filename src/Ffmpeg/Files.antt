-- ===== src/Ffmpeg/Files.antt =====
-- The files that the processor makes: internal/infra/ffmpeg/processor_repo.go up to its deferred
-- removals. A file at a path that is none of its temporary ones stays as it was.
use ffgif.Base.{
  ◌≡◌, ◌⊎◌, inl, inr, refl, sym, ℕ, true, false, Bool, ◌||◌, not, if◌then◌else◌, Bool-cases, List,
  [], ◌∷◌, arith, Text, text_eq, any, codes, ◌++◌, subst,
}
use ffgif.World.{
  message, Io, World, map_err_lem, Error, External, VideoMessage, map_err, of_result, pure, ◌>>=◌,
  ◌>>◌, wrap, raise_if,
}
use ffgif.World.Keeps.{Keeps, Keeps-bind}
use ffgif.Storage
use ffgif.Ffmpeg.Commands
use ffgif.Ffmpeg.Commands.{Floats}
use ffgif.Ffmpeg.Probe
use ffgif.Ffmpeg.Probe.{FfprobeOutput}
use ffgif.Conversion.Run.{JobResult}
use ffgif.Uploads.Service.{PreProcessed}
use ffgif.Ffmpeg.Processor
use ffgif.Ffmpeg.Processor.{Programs, process_files, pre_process_files}

abbrev pub IsGone : Text → World → Type 0
IsGone path w = any (text_eq path) w.files ≡ false

abbrev pub last : List Text → Text
last [] = []
last (a ∷ []) = a
last (a ∷ b ∷ args) = last (b ∷ args)

-- ffmpeg makes no file but the one that stands last on its command line, and ffprobe none.
pub record Writes (pr : Programs) : Type 0 where
  pub runs :
      (args : List Text) (p : Text) → text_eq p (last args) ≡ false → Keeps (IsGone p) (pr.run args)
  pub probes : (args : List Text) (p : Text) → Keeps (IsGone p) (pr.probe args)

last-mp4 : (i o c : Text) → last (Commands.new_mp4_converter_exec i o c) ≡ o
unfolding Commands.new_mp4_converter_exec
last-mp4 i o c = ground arith

three :
    (a b c : Bool) → (a || (b || (c || false))) ≡ false → (a ≡ false) × (b ≡ false) × (c ≡ false)
three a b c h = ground arith

four :
    (a b c d : Bool)
    → (a || (b || (c || (d || false)))) ≡ false
    → (a ≡ false) × (b ≡ false) × (c ≡ false) × (d ≡ false)
four a b c d h = ground arith

module _ (p : Text) where
  abbrev Spares : {A : Type 0} → Io A → Type 0
  Spares m = Keeps (IsGone p) m

  wrapped-Spares : {A : Type 0} (f : Error → Error) (m : Io A) → Spares m → Spares (map_err f m)
  wrapped-Spares f m h w g = map_err_lem f m w (λ r. IsGone p r.1) (λ e v k. k) (h w g)

  then-Spares : {A B : Type 0} (m : Io A) (k : Io B) → Spares m → Spares k → Spares (m >> k)
  then-Spares m k hm hk = Keeps-bind (IsGone p) m (λ _. k) hm (λ _. hk)

  get-Spares :
      (there : Bool) (path : Text)
      → text_eq p path ≡ false
      → Spares (Processor.get_object there path)
  unfolding Processor.get_object any
  get-Spares there path e w g = ground arith

  upload-Spares : (key : Text) → Spares (Storage.upload key)
  unfolding Storage.upload
  upload-Spares key w g = ground arith

  module _ (x : External) (fl : Floats) (pr : Programs) (writes : Writes pr) where
    run-Spares :
        (args : List Text) (o : Text)
        → last args ≡ o
        → text_eq p o ≡ false
        → Spares (map_err wrap (pr.run args))
    run-Spares args o e h =
        wrapped-Spares wrap (pr.run args)
          (writes.runs args p (subst (λ (t : Text). text_eq p t ≡ false) (sym e) h))

    run_gif-Spares :
        (i o t : Text) (width fps start end : ℕ) (loop : Text)
        → text_eq p o ≡ false
        → text_eq p t ≡ false
        → Spares
            (Commands.run_gif pr.run (Commands.new_gif_converter fl i o t width fps start end loop))
    unfolding Commands.run_gif Commands.new_gif_converter
    run_gif-Spares i o t width fps start end loop ho ht =
        let c = Commands.new_gif_converter fl i o t width fps start end loop in
        then-Spares (map_err wrap (pr.run c.p_cmd)) (map_err wrap (pr.run c.g_cmd))
          (run-Spares c.p_cmd t refl ht) (run-Spares c.g_cmd o refl ho)

    upload_both-Spares : (a b : Text) → Spares (Processor.upload_both x fl pr a b)
    unfolding Processor.upload_both Processor.fresh_key
    upload_both-Spares a b =
        let up = λ (key : Text). wrapped-Spares wrap (Storage.upload key) (upload-Spares key) in
        let last_part : Text → Text → Io (Text × Text) =
          λ key thumb. map_err wrap (Storage.upload thumb) >> pure (key, thumb) in
        let thumb_part : Text → Io (Text × Text) = λ key.
          map_err wrap (Storage.upload key)
          >> (Processor.fresh_key x fl pr (codes "thumpnail_") (codes ".jpg") >>= last_part key) in
        Keeps-bind (IsGone p) (Processor.fresh_key x fl pr a b) thumb_part (λ w g. g)
          (λ key.
            then-Spares (map_err wrap (Storage.upload key))
              (Processor.fresh_key x fl pr (codes "thumpnail_") (codes ".jpg") >>= last_part key)
              (up key)
              (Keeps-bind (IsGone p)
                (Processor.fresh_key x fl pr (codes "thumpnail_") (codes ".jpg")) (last_part key)
                (λ w g. g)
                (λ thumb.
                  then-Spares (map_err wrap (Storage.upload thumb)) (pure (key, thumb)) (up thumb)
                    (λ w g. g))))

    checked : FfprobeOutput → Io FfprobeOutput
    checked result = do
      valid ← of_result (Probe.is_valid result)
      raise_if (not valid) (message "Invalid file")
      pure result

    checked-Spares : (result : FfprobeOutput) → Spares (checked result)
    unfolding checked
    checked-Spares result w g = ground arith

    probe-Spares : (path : Text) → Spares (Processor.checked_probe x fl pr path)
    unfolding Processor.checked_probe checked
    probe-Spares path =
        let probe = pr.probe (Commands.new_probe_exex path) in
        Keeps-bind (IsGone p) (map_err wrap probe) checked
          (wrapped-Spares wrap probe (writes.probes (Commands.new_probe_exex path) p))
          checked-Spares

    finish : (A : Type 0) → (Text × Text → A) → Text → Text → Io A
    finish A f a b = Processor.upload_both x fl pr a b >>= λ keys. pure (f keys)

    finish-Spares : (A : Type 0) (f : Text × Text → A) (a b : Text) → Spares (finish A f a b)
    unfolding finish
    finish-Spares A f a b =
        Keeps-bind (IsGone p) (Processor.upload_both x fl pr a b) (λ keys. pure (f keys))
          (upload_both-Spares a b) (λ keys w g. g)

    process_steps-Spares :
        (m : VideoMessage) (i o t thumb : Text)
        → text_eq p i ≡ false
        → text_eq p o ≡ false
        → text_eq p t ≡ false
        → text_eq p thumb ≡ false
        → Spares (Processor.process_steps x fl pr m i o t thumb)
    unfolding Processor.process_steps Processor.download_local Commands.new_thumb_generator_exec
        finish
    process_steps-Spares m i o t thumb hi ho ht hthumb =
        let get = Processor.download_local m.key i in
        let start = fl.add m.start fl.one in
        let gif = Commands.run_gif pr.run (
          Commands.new_gif_converter fl i o t (Processor.or_default x fl pr 480 m.width)
            (Processor.or_default x fl pr 10 m.fps) m.start m.end
            (if m.loop then codes "0" else codes "-1")) in
        let still = map_err wrap (pr.run (Commands.new_thumb_generator_exec fl start i thumb)) in
        let rest =
          finish JobResult (λ k. record { gif_key = k.0; thumb_key = k.1 }) []
            (codes "_output.gif") in
        then-Spares (map_err wrap get) (map_err wrap gif >> (map_err wrap still >> rest))
          (wrapped-Spares wrap get (λ w. get-Spares (any (text_eq m.key) w.objects) i hi w))
          (then-Spares (map_err wrap gif) (map_err wrap still >> rest)
            (wrapped-Spares wrap gif (run_gif-Spares i o t _ _ _ _ _ ho ht))
            (then-Spares (map_err wrap still) rest
              (wrapped-Spares wrap still
                (run-Spares (Commands.new_thumb_generator_exec fl start i thumb) thumb refl hthumb))
              (finish-Spares JobResult _ [] (codes "_output.gif"))))

    pub process_body-IsGone :
        (m : VideoMessage) (w : World)
        → IsGone p w
        → (any (text_eq p) (process_files x fl pr m.key) ≡ true)
          ⊎ IsGone p (Processor.process_body x fl pr m w).1
    unfolding Processor.process_body any
    process_body-IsGone m w h = elim (Bool-cases (any (text_eq p) (process_files x fl pr m.key))) [
      | inl e ↦ inl e
      | inr e ↦
          let (a, b, c, d) =
            four (text_eq p (pr.temp (codes "thumb_" ++ m.key ++ codes ".jpg"))) _ _ _ e in
          inr (process_steps-Spares m _ _ _ _ d c b a w h)
    ]

    abbrev reported : Text × Text → FfprobeOutput → PreProcessed
    reported keys made = record {
      video_key = keys.0;
      thumbnail_key = keys.1;
      size = made.format.size;
      duration = made.format.duration;
      content_type = codes "video/mp4";
    }

    -- `PreProcess` from its uploads on.
    report : Text → Text × Text → Io PreProcessed
    report o keys = Processor.checked_probe x fl pr o >>= λ made. pure (reported keys made)

    report-Spares : (o : Text) (keys : Text × Text) → Spares (report o keys)
    unfolding report
    report-Spares o keys =
        Keeps-bind (IsGone p) (Processor.checked_probe x fl pr o)
          (λ made. pure (reported keys made)) (probe-Spares o) (λ made w g. g)

    -- `PreProcess` from the conversion on, for the first stream.
    convert : Text → Text → Text → Text → Io PreProcessed
    convert i o thumb codec =
        map_err wrap (map_err wrap (pr.run (Commands.new_mp4_converter_exec i o codec)))
        >> (map_err wrap
              (map_err wrap (pr.run (Commands.new_thumb_generator_exec fl fl.one o thumb)))
            >> (Processor.upload_both x fl pr (codes "converted_") (codes ".mp4") >>= report o))

    convert-Spares :
        (i o thumb codec : Text)
        → text_eq p o ≡ false
        → text_eq p thumb ≡ false
        → Spares (convert i o thumb codec)
    unfolding convert Commands.new_thumb_generator_exec
    convert-Spares i o thumb codec ho hthumb =
        let mp4 = map_err wrap (pr.run (Commands.new_mp4_converter_exec i o codec)) in
        let still = map_err wrap (pr.run (Commands.new_thumb_generator_exec fl fl.one o thumb)) in
        let both = Processor.upload_both x fl pr (codes "converted_") (codes ".mp4") in
        then-Spares (map_err wrap mp4) (map_err wrap still >> (both >>= report o))
          (wrapped-Spares wrap mp4
            (run-Spares (Commands.new_mp4_converter_exec i o codec) o (last-mp4 i o codec) ho))
          (then-Spares (map_err wrap still) (both >>= report o)
            (wrapped-Spares wrap still
              (run-Spares (Commands.new_thumb_generator_exec fl fl.one o thumb) thumb refl hthumb))
            (Keeps-bind (IsGone p) both (report o)
              (upload_both-Spares (codes "converted_") (codes ".mp4")) (report-Spares o)))

    from_stream : Text → Text → Text → FfprobeOutput → Io PreProcessed
    from_stream i o thumb raw =
        of_result (Probe.first_stream raw.stream) >>= λ first. convert i o thumb first.codec_name

    from_stream-Spares :
        (i o thumb : Text) (raw : FfprobeOutput)
        → text_eq p o ≡ false
        → text_eq p thumb ≡ false
        → Spares (from_stream i o thumb raw)
    unfolding from_stream
    from_stream-Spares i o thumb raw ho hthumb =
        Keeps-bind (IsGone p) (of_result (Probe.first_stream raw.stream))
          (λ first. convert i o thumb first.codec_name) (λ w g. g)
          (λ first. convert-Spares i o thumb first.codec_name ho hthumb)

    pre_process_steps-Spares :
        (key i o thumb : Text)
        → text_eq p i ≡ false
        → text_eq p o ≡ false
        → text_eq p thumb ≡ false
        → Spares (Processor.pre_process_steps x fl pr key i o thumb)
    unfolding Processor.pre_process_steps Processor.download_local_raw_video from_stream convert
        report
    pre_process_steps-Spares key i o thumb hi ho hthumb =
        let get = Processor.download_local_raw_video x fl pr key i in
        let probe = Processor.checked_probe x fl pr i in
        then-Spares (map_err wrap get) (probe >>= from_stream i o thumb)
          (wrapped-Spares wrap get (get-Spares (pr.has_upload key) i hi))
          (Keeps-bind (IsGone p) probe (from_stream i o thumb) (probe-Spares i)
            (λ raw. from_stream-Spares i o thumb raw ho hthumb))

    pub pre_process_body-IsGone :
        (key : Text) (w : World)
        → IsGone p w
        → (any (text_eq p) (pre_process_files x fl pr key) ≡ true)
          ⊎ IsGone p (Processor.pre_process_body x fl pr key w).1
    unfolding Processor.pre_process_body any
    pre_process_body-IsGone key w h =
        elim (Bool-cases (any (text_eq p) (pre_process_files x fl pr key))) [
          | inl e ↦ inl e
          | inr e ↦
              let (a, b, c) =
                three (text_eq p (pr.temp (codes "thumb_" ++ key ++ codes ".jpg"))) _ _ e in
              inr (pre_process_steps-Spares key _ _ _ c b a w h)
        ]
