-- ===== src/User/Service.antt =====
-- internal/app/user: the five methods of the service.
use ffgif.Base.{ℕ, none, some, not, Text, text_eq, if◌then◌else◌}
use ffgif.World.{
  Io, ok, err, of_result, map_err, raise_if, ◌>>=◌, ◌>>◌, with_tx, External, Error, known, wrap,
  join, message, errors_is, no_rows, user_not_found, invalid_credential, hash_gen_failed,
  password_mismatched, table_update_failed, etag_validation_failed, Quota,
}
use ffgif.Pkg
use ffgif.Pkg.{Config}
use ffgif.Auth.Users
use ffgif.User.Profiles
use ffgif.User.Profiles.{ProfileResponse, ProfileUpdateRequest}
use ffgif.User.Quotas

-- uuid.Parse
unfoldable pub parse_uuid : External → Text → Io ℕ
parse_uuid x id =
    of_result (elim (x.uuid_parse id) [ none ↦ err (message "invalid UUID") | some u ↦ ok u ])

-- `if errors.Is(err, sql.ErrNoRows) { return auth.ErrUserNotFound }; return f(err)`
abbrev pub user_error : (Error → Error) → Error → Error
user_error f e = if errors_is e no_rows then known user_not_found else f e

module _ (x : External) (cfg : Config) where
  unfoldable pub change_password : Text → Text → Text → Text → Io (Unit {0})
  unfolding parse_uuid Users.get_by_id Pkg.compare_hash_and_password Pkg.generate_hash
      Profiles.change_password
  change_password id current_pass pass confirm_pass = do
    u ← parse_uuid x id
    found ← map_err (user_error (λ e. e)) (Users.get_by_id u)
    raise_if (not (text_eq pass confirm_pass)) (known password_mismatched)
    raise_if (text_eq current_pass pass)
        (message "new password cannot be the same as current password")
    raise_if (not (Pkg.compare_hash_and_password x cfg found.password_hash current_pass))
        (known invalid_credential)
    hash ← map_err (join (known hash_gen_failed)) (Pkg.generate_hash x cfg pass)
    map_err (join (known table_update_failed)) (Profiles.change_password x id hash)

  unfoldable pub delete_user : Text → Text → Io (Unit {0})
  unfolding parse_uuid Users.get_by_id Pkg.compare_hash_and_password Users.delete_by_id
  delete_user id pass = do
    u ← parse_uuid x id
    found ← map_err (join (known user_not_found)) (Users.get_by_id u)
    raise_if (not (Pkg.compare_hash_and_password x cfg found.password_hash pass))
        (known invalid_credential)
    map_err (join (known table_update_failed)) (Users.delete_by_id u)

module _ (x : External) where
  unfoldable pub get_profile : Text → Io ProfileResponse
  unfolding Profiles.get_profile
  get_profile id = map_err (user_error wrap) (Profiles.get_profile x id)

  unfoldable pub get_quota : Text → Io Quota
  unfolding Quotas.get_by_id
  get_quota id = Quotas.get_by_id x id

  unfoldable pub update_profile : ProfileUpdateRequest → Text → Text → Io ProfileResponse
  unfolding with_tx Profiles.get_profile Profiles.update_profile
  update_profile profile user last_updated_at = with_tx do
    resp ← Profiles.get_profile x user
    raise_if (not (text_eq (x.rfc3339_nano resp.updated_at) last_updated_at))
        (known etag_validation_failed)
    Profiles.update_profile x profile user
