-- ===== src/Ffmpeg/Probe.antt =====
-- internal/port/processor/entity.go: what ffprobe says of a file.
use ffgif.Base.{
  ◌*◌, Bool, false, not, Option, none, some, List, [], ◌∷◌, Text, codes, text_eq, if◌then◌else◌,
}
use ffgif.Base.Int.{ℤ, pos, leb_ℤ}
use ffgif.Base.Parse.{parse_int}
use ffgif.World.{Result, ok, err, panic}

pub record Format : Type 0 where
  pub duration : Text
  pub size : Text
  pub probe_score : ℤ

pub record Stream : Type 0 where
  pub codec_name : Text
  pub codec_type : Text

pub record FfprobeOutput : Type 0 where
  pub format : Format
  pub stream : List Stream

-- `f.Stream[0]`: a panic if there is none.
abbrev pub first_stream : List Stream → Result Stream
first_stream [] = err panic
first_stream (s ∷ ss) = ok s

abbrev pub is_video : Result Stream → Result Bool
is_video (ok s) = ok (text_eq s.codec_type (codes "video"))
is_video (err e) = err e

abbrev pub fits : Option ℤ → Bool
fits none = false
fits (some size) = leb_ℤ size (pos (500 * 1024 * 1024))

unfoldable pub is_valid : FfprobeOutput → Result Bool
unfolding parse_int text_eq
is_valid f =
    if not (leb_ℤ (pos 50) f.format.probe_score)
    then ok false
    else if not (fits (parse_int 32 f.format.size))
    then ok false
    else is_video (first_stream f.stream)
