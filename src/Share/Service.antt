-- ===== src/Share/Service.antt =====
-- internal/app/share: the six methods of the service.
use ffgif.Base.{ℕ, ◌*◌, ltb, not, ◌||◌, some, List, Text, codes, text_eq, if◌then◌else◌}
use ffgif.World.{
  Io, pure, gets, map_err, raise_if, ◌>>=◌, ◌>>◌, publish_email, External, Error, known, wrap, join,
  errors_is, no_rows, user_not_found, invalid_credential, gif_owner_mismatch, invalid_expiry,
  share_not_found, not_authorized, message_queue_failed, Share, ShareByToken,
}
use ffgif.Pkg
use ffgif.Pkg.{minute}
use ffgif.Storage
use ffgif.Auth.Users
use ffgif.Auth.Service.{email_of}
use ffgif.Gif.Repo as GifRepo
use ffgif.Gif.Service.{gif_error}
use ffgif.Share.Repo

abbrev pub target_error : Error → Error
target_error e =
    if errors_is e invalid_credential || errors_is e no_rows || errors_is e user_not_found
    then join (known user_not_found) e
    else wrap e

abbrev pub not_found_or : (Error → Error) → Error → Error
not_found_or f e = if errors_is e no_rows then known share_not_found else f e

abbrev pub new_link : Text → Text → Text → ℕ → ShareByToken
new_link gif_key token email expires_at = record {
  gif_key = gif_key;
  token = token;
  email = email;
  expires_at = some expires_at;
  created_at = 0;
}

module _ (x : External) where
  -- `shared_by` is the id of a user, `shared_with` the address of one.
  unfoldable pub create : Text → Text → Text → ℕ → Io (Unit {0})
  unfolding Users.get_by_email GifRepo.get_owner Repo.create
  create shared_by gif_key shared_with expires_at = do
    now ← gets (λ w. w.now)
    raise_if (not (ltb now expires_at)) (known invalid_expiry)
    target ← map_err target_error (Users.get_by_email shared_with)
    owner ← map_err gif_error (GifRepo.get_owner x gif_key)
    raise_if (not (text_eq owner shared_by)) (known gif_owner_mismatch)
    Repo.create x gif_key shared_by (x.uuid_string target.id) (some expires_at)

  -- With an error of the queue the token comes back too; it is left out here.
  unfoldable pub create_by_token : Text → Text → Text → ℕ → Io Text
  unfolding GifRepo.get_owner Pkg.generate_token Repo.create_by_token publish_email
  create_by_token shared_by gif_key shared_with_email expires_at = do
    now ← gets (λ w. w.now)
    raise_if (not (ltb now expires_at)) (known invalid_expiry)
    owner ← map_err gif_error (GifRepo.get_owner x gif_key)
    raise_if (not (text_eq owner shared_by)) (known gif_owner_mismatch)
    (raw_token, token_hash) ← Pkg.generate_token x
    map_err wrap (Repo.create_by_token (new_link gif_key token_hash shared_with_email expires_at))
    map_err (join (known message_queue_failed))
        (publish_email (email_of shared_with_email (codes "share") raw_token))
    pure raw_token

  unfoldable pub delete : Text → Text → Text → Io (Unit {0})
  unfolding Repo.get_owner Repo.delete
  delete user gif_key share_with = do
    owner ← map_err (not_found_or (λ e. e)) (Repo.get_owner x share_with gif_key)
    raise_if (not (text_eq owner user)) (known not_authorized)
    Repo.delete x gif_key share_with

  unfoldable pub get : Text → Io (List Share)
  unfolding Repo.get
  get user = Repo.get x user

  unfoldable pub get_by_token : Text → Io ShareByToken
  unfolding Repo.get_by_token
  get_by_token token = Repo.get_by_token token

  unfoldable pub download_by_token : Text → Io Text
  unfolding Repo.get_by_token GifRepo.increment_download Storage.download
  download_by_token token = do
    resp ← map_err (not_found_or wrap) (Repo.get_by_token token)
    map_err wrap (GifRepo.increment_download resp.gif_key)
    map_err wrap (Storage.download x resp.gif_key (5 * minute))
