-- ===== src/Uploads/Keys.antt =====
-- The keys that `Upload` makes (internal/app/media/upload.go), and how `Status`, `Convert` and
-- `ProcessAndSave` read the owner back from them.
use ffgif.Base.{
  ◌≡◌, refl, ap, ◌∙◌, false, not, [], ◌∷◌, ◌++◌, arith, Text, text_eq, has_prefix, contains_byte,
}
use ffgif.Base.Parse.{file_ext, before-append, contains_byte-append}
use ffgif.World.{World, ok, External}
use ffgif.Conversion.Service as Conversion
use ffgif.Uploads.Service
use ffgif.Uploads.Service.{UploadResult, upload_key, seperate_user_id, is_foreign}

has_prefix-key :
    (s t rest : Text)
    → contains_byte s 58 ≡ false
    → contains_byte t 58 ≡ false
    → has_prefix (s ++ 58 ∷ rest) (t ++ 58 ∷ []) ≡ text_eq s t
unfolding has_prefix contains_byte text_eq
has_prefix-key [] [] rest h k = refl
has_prefix-key [] (b ∷ t) rest h k = ground arith
has_prefix-key (a ∷ s) [] rest h k = ground arith
has_prefix-key (a ∷ s) (b ∷ t) rest h k = ground (arith, has_prefix-key s t rest)

module _ (x : External) where
  -- The key of an upload that succeeds.
  pub upload_lem :
      (filename user : Text) (w : World) (r : UploadResult)
      → (Service.upload x filename user w).0 ≡ ok r
      → r.key ≡ upload_key user (x.uuid_string (w.uuids w.drawn)) (file_ext filename)
  unfolding Service.upload
  upload_lem filename user w r h = ground arith

  -- The owner of an upload can be read back from its key, if ids of users hold no colon: for the
  -- key that a successful `Upload` gives to a user, `seperateUserId` gives this user, and both the
  -- check of `Status` and that of `Convert` let this user pass and refuse every other.
  pub upload-keyed :
      (filename user other : Text) (w : World) (r : UploadResult)
      → contains_byte user 58 ≡ false
      → contains_byte other 58 ≡ false
      → (Service.upload x filename user w).0 ≡ ok r
      → (seperate_user_id r.key ≡ user)
        × (is_foreign r.key other ≡ not (text_eq user other))
        × (Conversion.is_foreign r.key other ≡ not (text_eq user other))
  upload-keyed filename user other w r h k done =
      let id = x.uuid_string (w.uuids w.drawn) in
      let ext = file_ext filename in
      let key = upload_lem filename user w r done in
      let checked : is_foreign (upload_key user id ext) other ≡ not (text_eq user other) = ground (
        arith,
        contains_byte-append user (id ++ ext) 58,
        has_prefix-key user other (id ++ ext) h k,
      ) in
      (
        ap seperate_user_id key ∙ before-append 58 user (id ++ ext) h,
        ap (λ t. is_foreign t other) key ∙ checked,
        ap (λ t. Conversion.is_foreign t other) key ∙ checked,
      )
