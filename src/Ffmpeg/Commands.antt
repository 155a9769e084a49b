-- ===== src/Ffmpeg/Commands.antt =====
-- internal/infra/ffmpeg/ffmpeg.go and ffprobe.go: the command lines. A float32 is given by its
-- bits; its arithmetic and package fmt are a parameter.
use ffgif.Base.{ℕ, List, [], ◌∷◌, ◌++◌, Text, codes, text_eq, if◌then◌else◌}
use ffgif.World.{Io, map_err, ◌>>◌, wrap}

pub record Floats : Type 0 where
  pub sub : ℕ → ℕ → ℕ
  pub add : ℕ → ℕ → ℕ
  -- 1.0
  pub one : ℕ
  -- fmt.Sprintf("%.2f", x) and fmt.Sprintf("%d", n)
  pub two_digits : ℕ → Text
  pub itoa : ℕ → Text

pub record PaletteFilter : Type 0 where
  pub start : ℕ
  pub duration : ℕ
  pub input_path : Text
  pub filter : Text
  pub path : Text

pub record GifFilter : Type 0 where
  pub start : ℕ
  pub duration : ℕ
  pub input_path : Text
  pub palette_path : Text
  pub loop : Text
  pub filter : Text
  pub path : Text

pub record GifConverter : Type 0 where
  pub p_cmd : List Text
  pub g_cmd : List Text

unfoldable pub new_mp4_converter_exec : Text → Text → Text → List Text
unfolding text_eq
new_mp4_converter_exec input_path output_path codec_name =
    if text_eq codec_name (codes "h264")
    then codes "ffmpeg"
      ∷ codes "-i"
      ∷ input_path
      ∷ codes "-c:v"
      ∷ codes "copy"
      ∷ codes "-an"
      ∷ codes "-movflags"
      ∷ codes "+faststart"
      ∷ codes "-y"
      ∷ output_path
      ∷ []
    else codes "ffmpeg"
      ∷ codes "-i"
      ∷ input_path
      ∷ codes "-c:v"
      ∷ codes "libx264"
      ∷ codes "-preset"
      ∷ codes "medium"
      ∷ codes "-crf"
      ∷ codes "23"
      ∷ codes "-an"
      ∷ codes "-movflags"
      ∷ codes "+faststart"
      ∷ codes "-y"
      ∷ output_path
      ∷ []

unfoldable pub new_probe_exex : Text → List Text
new_probe_exex input =
    codes "ffprobe"
    ∷ codes "-v"
    ∷ codes "quiet"
    ∷ codes "-print_format"
    ∷ codes "json"
    ∷ codes "-show_format"
    ∷ codes "-show_streams"
    ∷ codes "-select_streams"
    ∷ codes "v:0"
    ∷ input
    ∷ []

module _ (fl : Floats) where
  unfoldable pub new_palette_exec : PaletteFilter → List Text
  new_palette_exec f =
      codes "ffmpeg"
      ∷ codes "-ss"
      ∷ fl.two_digits f.start
      ∷ codes "-t"
      ∷ fl.two_digits f.duration
      ∷ codes "-i"
      ∷ f.input_path
      ∷ codes "-vf"
      ∷ f.filter
      ∷ codes "-update"
      ∷ codes "1"
      ∷ codes "-frames:v"
      ∷ codes "1"
      ∷ codes "-y"
      ∷ f.path
      ∷ []

  unfoldable pub new_gif_exec : GifFilter → List Text
  new_gif_exec f =
      codes "ffmpeg"
      ∷ codes "-ss"
      ∷ fl.two_digits f.start
      ∷ codes "-t"
      ∷ fl.two_digits f.duration
      ∷ codes "-i"
      ∷ f.input_path
      ∷ codes "-i"
      ∷ f.palette_path
      ∷ codes "-filter_complex"
      ∷ f.filter
      ∷ codes "-loop"
      ∷ f.loop
      ∷ codes "-y"
      ∷ f.path
      ∷ []

  unfoldable pub new_thumb_generator_exec : ℕ → Text → Text → List Text
  new_thumb_generator_exec start_at input_path output_path =
      codes "ffmpeg"
      ∷ codes "-ss"
      ∷ fl.two_digits start_at
      ∷ codes "-i"
      ∷ input_path
      ∷ codes "-vframes"
      ∷ codes "1"
      ∷ codes "-q:v"
      ∷ codes "2"
      ∷ codes "-update"
      ∷ codes "1"
      ∷ codes "-vf"
      ∷ codes "format=yuvj420p"
      ∷ output_path
      ∷ []

  -- `fps=…,scale=…:-1:flags=lanczos` with what follows.
  abbrev scaled : ℕ → ℕ → Text → Text
  scaled fps width rest =
      codes "fps="
      ++ fl.itoa fps
      ++ codes ",scale="
      ++ fl.itoa width
      ++ codes ":-1:flags=lanczos"
      ++ rest

  -- The paths of the input, the output and the palette; width and frames per second; start and end.
  unfoldable pub new_gif_converter : Text → Text → Text → ℕ → ℕ → ℕ → ℕ → Text → GifConverter
  unfolding new_palette_exec new_gif_exec
  new_gif_converter input_path output_path palette_path width fps start end loop = record {
    p_cmd = new_palette_exec (record {
      start = start;
      duration = fl.sub end start;
      input_path = input_path;
      filter = scaled fps width (codes ",format=rgb24,palettegen=stats_mode=full");
      path = palette_path;
    });
    g_cmd = new_gif_exec (record {
      start = start;
      duration = fl.sub end start;
      input_path = input_path;
      palette_path = palette_path;
      loop = loop;
      filter = scaled fps width (codes "[x];[x][1:v]paletteuse=dither=sierra2_4a");
      path = output_path;
    });
  }

-- `GifConverter.Run`, where `run` starts a program and waits for its end.
unfoldable pub run_gif : (List Text → Io (Unit {0})) → GifConverter → Io (Unit {0})
run_gif run c = map_err wrap (run c.p_cmd) >> map_err wrap (run c.g_cmd)
