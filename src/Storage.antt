-- ===== src/Storage.antt =====
-- internal/infra/minio/storage_repo.go over a bucket that is the list of its keys.
pub mod Upload
use ffgif.Base.{
  ℕ, zero, suc, none, some, ◌+◌, ◌*◌, Bool, ◌||◌, List, [], ◌∷◌, ◌++◌, Text, codes, text_eq,
  delete_where,
}
use ffgif.World.{
  Io, World, Result, ok, err, pure, gets, of_result, ◌>>=◌, message, attempt, External, Info,
}
use ffgif.Pkg.{second}

module _ (x : External) where
  -- The URL to which a client puts an object of the bucket for uploads.
  unfoldable pub create : Text → ℕ → Io Text
  unfolding attempt
  create key expiry = attempt (pure (x.presigned_put key expiry))

  unfoldable pub download : Text → ℕ → Io Text
  unfolding attempt
  download key expiry =
      attempt (pure (x.presigned_get (codes "attachment; filename=" ++ key) key expiry))

  unfoldable pub get_stream_url : Text → ℕ → Io Text
  unfolding attempt
  get_stream_url key expiry =
      attempt (pure (x.presigned_get (codes "inline; filename=" ++ key) key expiry))

  unfoldable pub get_thumbnail_url : Text → Io Text
  unfolding attempt
  get_thumbnail_url key = attempt (pure (x.presigned_get (codes "image/jpeg") key (30 * second)))

-- StatObject: what is known of an object, or an error if there is none.
unfoldable pub status : Text → Io Info
unfolding attempt
status key = attempt do
  found ← gets (λ w. w.stat key)
  of_result
      (elim found [ none ↦ err (message "The specified key does not exist.") | some i ↦ ok i ])

-- RemoveObject is content if there is no such object.
unfoldable pub delete : Text → Io (Unit {0})
unfolding attempt
delete key = attempt λ w. (ok tt, record w { objects = delete_where (text_eq key) w.objects })

-- FPutObject of one file.
unfoldable pub put_object : Text → Io (Unit {0})
unfolding attempt
put_object key = attempt λ w. (ok tt, record w { objects = key ∷ w.objects })

-- The loop of `Upload`: `tries` attempts are left, and a failed one but the last waits for twice
-- as long as the one before.
unfoldable pub upload_loop : Text → ℕ → ℕ → Io (Unit {0})
unfolding put_object
upload_loop key zero backoff w = (ok tt, w)
upload_loop key (suc zero) backoff w = put_object key w
upload_loop key (suc (suc n)) backoff w =
    let (r, w') = put_object key w in
    elim r [
      | ok _ ↦ (ok tt, w')
      | err e ↦ upload_loop key (suc n) (backoff * 2) (record w' { now = w'.now + backoff })
    ]

-- Three attempts, 100 ms at first.
unfoldable pub upload : Text → Io (Unit {0})
unfolding upload_loop
upload key = upload_loop key 3 100_000_000
