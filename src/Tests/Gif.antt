-- ===== src/Tests/Gif.antt =====
-- The theorems on GIFs at concrete worlds.
use ffgif.Base.{◌≡◌, refl, none, some, [], ◌∷◌, Text, codes, text_eq, find?}
use ffgif.World.{World, err, known, etag_validation_failed}
use ffgif.Gif.Repo
use ffgif.Gif.Repo.{UpdateRequest}
use ffgif.Gif.Service
use ffgif.Gif.Ownership
use ffgif.Gif.Ownership.{IsRefused}
use ffgif.Gif.Download
use ffgif.Gif.Etag
use ffgif.Tests.Sample.{sample, cat, calm}

abbrev ann_id : Text
ann_id = 1 ∷ []

abbrev bob_id : Text
bob_id = 2 ∷ []

abbrev rename : UpdateRequest
rename = record { name = some (codes "tom"); status = none; persist = none; is_public = none }

foreign-IsRefused_example :
    IsRefused calm (Service.delete sample bob_id (codes "cat") calm)
    × IsRefused calm (Service.update sample bob_id (codes "cat") rename (5 ∷ []) calm)
    × IsRefused calm (Service.save sample bob_id (codes "cat") calm)
    × IsRefused calm (Service.get_by_key sample bob_id (codes "cat") calm)
    × IsRefused calm (Service.get_gif_thumbnail sample bob_id (codes "cat") calm)
unfolding find? text_eq
foreign-IsRefused_example =
    Ownership.foreign-IsRefused sample bob_id (codes "cat") (5 ∷ []) rename cat calm refl refl

download-Downloads_example :
    Download.Downloads sample ann_id
      (codes "cat")
      1
      cat
      calm
      (Service.download sample ann_id (codes "cat") calm)
unfolding find? text_eq
download-Downloads_example =
    Download.download-Downloads sample ann_id (codes "cat") 1 cat calm (λ n. refl) refl refl

abbrev renamed : World
renamed = (Service.update sample ann_id (codes "cat") rename (5 ∷ []) calm).1

update-once_example :
    ((Service.update sample ann_id (codes "cat") rename (5 ∷ []) renamed).0
      ≡ err (known etag_validation_failed))
    × ((Service.update sample ann_id (codes "cat") rename (5 ∷ []) renamed).1.db ≡ renamed.db)
unfolding find? text_eq Service.update
update-once_example =
    Etag.update-once sample ann_id (codes "cat") (5 ∷ []) rename rename cat
      (Repo.updated rename 1000 cat) calm renamed refl refl refl refl refl (λ n. refl)
