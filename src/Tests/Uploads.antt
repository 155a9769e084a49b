-- ===== src/Tests/Uploads.antt =====
-- The theorem on the keys of uploads at a concrete upload.
use ffgif.Base.{◌≡◌, refl, not, [], ◌∷◌, codes, text_eq, contains_byte, find?}
use ffgif.Conversion.Service as Conversion
use ffgif.Uploads.Service
use ffgif.Uploads.Service.{UploadResult, seperate_user_id, is_foreign}
use ffgif.Uploads.Keys
use ffgif.Tests.Sample.{sample, calm}

abbrev uploaded : UploadResult
uploaded = record {
  url = 1 ∷ 58 ∷ 100 ∷ codes ".mp4";
  key = 1 ∷ 58 ∷ 100 ∷ codes ".mp4";
  expire_in = 300;
}

upload-keyed_example :
    (seperate_user_id uploaded.key ≡ 1 ∷ [])
    × (is_foreign uploaded.key (2 ∷ []) ≡ not (text_eq (1 ∷ []) (2 ∷ [])))
    × (Conversion.is_foreign uploaded.key (2 ∷ []) ≡ not (text_eq (1 ∷ []) (2 ∷ [])))
unfolding contains_byte Service.upload text_eq find?
upload-keyed_example =
    Keys.upload-keyed sample (codes "a.mp4") (1 ∷ []) (2 ∷ []) calm uploaded refl refl refl
