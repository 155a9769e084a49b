-- ===== src/Gif/Service.antt =====
-- internal/app/media: the methods on stored GIFs.
use ffgif.Base.{ℕ, ◌-◌, ◌*◌, ltb, not, ◌&&◌, List, [], Text, text_eq, length, if◌then◌else◌}
use ffgif.World.{
  Io, Result, ok, err, pure, of_result, catch, map_err, ignore, raise_if, ◌>>=◌, ◌>>◌, with_tx,
  External, Error, known, wrap, join, errors_is, no_rows, gif_not_found, gif_fetch_failed,
  gif_owner_mismatch, thumbnail_not_found, etag_validation_failed, delete_by_key_failed, Gif,
}
use ffgif.Pkg.{minute}
use ffgif.Storage
use ffgif.Gif.Repo
use ffgif.Gif.Repo.{UpdateRequest}
use ffgif.Share.Repo as ShareRepo

-- `if errors.Is(err, sql.ErrNoRows) { … %w: %w … ErrGifNotFound, err }; … %w … err`
abbrev pub gif_error : Error → Error
gif_error e = if errors_is e no_rows then join (known gif_not_found) e else wrap e

-- The error of the shares that `Download` looks at.
abbrev pub shared_owner : Result Text → Result Text
shared_owner (ok owner) = ok owner
shared_owner (err e) = if errors_is e no_rows then ok [] else err (wrap e)

-- GifResult: the page of GIFs, their number, the page and the limit.
pub record GifResult : Type 0 where
  pub data_ : List Gif
  pub total : ℕ
  pub page : ℕ
  pub limit : ℕ

-- StreamResult
pub record StreamResult : Type 0 where
  pub presigned_url : Text
  pub expire_in : ℕ

module _ (x : External) where
  -- The look at the owner with which most methods begin.
  unfoldable pub own : Text → Text → Io (Unit {0})
  unfolding Repo.get_owner
  own user key = do
    owner ← map_err gif_error (Repo.get_owner x key)
    raise_if (not (text_eq owner user)) (known gif_owner_mismatch)

  unfoldable pub delete : Text → Text → Io (Unit {0})
  unfolding own Repo.delete Storage.delete
  delete user key = do
    own user key
    map_err (join (known delete_by_key_failed)) (Repo.delete key)
    ignore (Storage.delete key)

  unfoldable pub download : Text → Text → Io Text
  unfolding Repo.get_owner ShareRepo.get_owner Repo.increment_download Storage.download
  download user key = do
    owner ← map_err gif_error (Repo.get_owner x key)
    looked ← catch (ShareRepo.get_owner x user key)
    shared ← of_result (shared_owner looked)
    raise_if (not (text_eq owner user) && not (text_eq shared owner)) (known gif_owner_mismatch)
    map_err wrap (Repo.increment_download key)
    map_err wrap (Storage.download x key (5 * minute))

  unfoldable pub get_by_key : Text → Text → Io Gif
  unfolding own Repo.get_by_key
  get_by_key user key = do
    own user key
    map_err (join (known gif_fetch_failed)) (Repo.get_by_key key)

  unfoldable pub get_gif_thumbnail : Text → Text → Io Text
  unfolding own Repo.get_by_key Storage.get_thumbnail_url
  get_gif_thumbnail user key = do
    own user key
    gif ←
        map_err
          (λ e.
            if errors_is e no_rows
            then join (known gif_not_found) e
            else join (known gif_fetch_failed) e)
          (Repo.get_by_key key)
    raise_if (text_eq gif.thumbnail_key []) (known thumbnail_not_found)
    map_err wrap (Storage.get_thumbnail_url x gif.thumbnail_key)

  -- A page or a limit below 1 stands here as 0.
  unfoldable pub get_gifs : Text → Text → ℕ → ℕ → Io GifResult
  unfolding Repo.get
  get_gifs user filter page limit = do
    let page' : ℕ = if ltb page 1 then 1 else page
    let limit' : ℕ = if ltb limit 1 then 20 else limit
    gifs ←
        map_err (join (known gif_fetch_failed))
          (Repo.get x user filter limit' ((page' - 1) * limit'))
    pure (record { data_ = gifs; total = length gifs; page = page'; limit = limit' })

  unfoldable pub get_recents : Text → Io (List Gif)
  unfolding Repo.get_recents
  get_recents user = map_err (join (known gif_fetch_failed)) (Repo.get_recents x user)

  unfoldable pub save : Text → Text → Io (Unit {0})
  unfolding own Repo.save_recent
  save user key = do own user key; Repo.save_recent key

  unfoldable pub stream : Text → Io StreamResult
  unfolding Storage.get_stream_url
  stream key = do
    url ← map_err wrap (Storage.get_stream_url x key (1 * minute))
    pure (record { presigned_url = url; expire_in = 60 })

  -- The body of the transaction of `Update`.
  unfoldable pub update_tx : Text → UpdateRequest → Text → Io Gif
  unfolding Repo.get_by_key Repo.update
  update_tx key req last_updated_at = do
    gif ←
        map_err
          (λ e.
            if errors_is e no_rows
            then join (known gif_not_found) e
            else join (known gif_fetch_failed) e)
          (Repo.get_by_key key)
    raise_if (not (text_eq (x.rfc3339_nano gif.updated_at) last_updated_at))
        (known etag_validation_failed)
    map_err wrap (Repo.update key req)

  unfoldable pub update : Text → Text → UpdateRequest → Text → Io Gif
  unfolding own with_tx update_tx
  update user key req last_updated_at = do own user key; with_tx (update_tx key req last_updated_at)
