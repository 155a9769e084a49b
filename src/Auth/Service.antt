-- ===== src/Auth/Service.antt =====
-- internal/app/auth: the eight methods of the service.
use ffgif.Base.{
  ℕ, ◌-◌, leb, Bool, true, false, not, none, some, [], ◌++◌, Text, codes, text_eq, if◌then◌else◌,
}
use ffgif.World.{
  Io, Result, ok, err, pure, gets, of_result, catch, map_err, raise_if, ◌>>=◌, ◌>>◌, with_tx,
  publish_email, External, Payload, Error, known, join, message, panic, errors_is, no_rows,
  user_not_found, invalid_credential, user_not_verified, user_exists, user_create_failed,
  verifier_token_create_failed, set_profile_failed, quota_create_failed, token_fetch_failed,
  create_reset_token_failed, user_already_verified, reseter_token_fetch_failed, invalid_token,
  set_user_verified_failed, hash_gen_failed, message_queue_failed, User, Verifier, Reseter, Profile,
  Quota, EmailMessage,
}
use ffgif.Pkg
use ffgif.Pkg.{Config}
use ffgif.Cache
use ffgif.Auth.Users
use ffgif.Auth.Verifiers
use ffgif.Auth.Reseters
use ffgif.User.Profiles
use ffgif.User.Quotas

-- `fmt.Errorf("…: %w: %w", sentinel, err)`
abbrev pub under : Error → Error → Error
under sentinel e = join sentinel e

-- `if errors.Is(err, sql.ErrNoRows) { return sentinel }; return err`
abbrev pub no_rows_as : Error → Error → Error
no_rows_as sentinel e = if errors_is e no_rows then sentinel else e

-- What a new row of `users` holds besides the defaults.
abbrev pub new_user : Text → Text → Text → Text → User
new_user email username fullname hash = record {
  id = 0;
  username = username;
  fullname = fullname;
  email = email;
  password_hash = hash;
  is_verified = false;
  role = codes "user";
  created_at = 0;
  updated_at = 0;
  deleted_at = none;
}

abbrev pub new_verifier : ℕ → Text → Verifier
new_verifier user hash = record {
  id = 0;
  user_id = user;
  token = hash;
  created_at = 0;
  expire_at = 0;
}

abbrev pub new_reseter : ℕ → Text → Reseter
new_reseter user hash = record {
  id = 0;
  user_id = user;
  token = hash;
  used = false;
  created_at = 0;
  expire_at = 0;
}

abbrev pub new_profile : ℕ → Profile
new_profile user = record {
  id = 0;
  user_id = user;
  profile_pic = [];
  created_at = 0;
  updated_at = 0;
}

abbrev pub new_quota : ℕ → Quota
new_quota user = record {
  id = 0;
  user_id = user;
  used_bytes = 0;
  total_bytes = 0;
  gif_count = 0;
  gif_limit = 0;
}

abbrev pub email_of : Text → Text → Text → EmailMessage
email_of to name token = record { to = to; name = name; token = token }

-- `err == nil`
abbrev pub succeeded : {A : Type 0} → Result A → Bool
succeeded (ok _) = true
succeeded (err _) = false

abbrev pub blocklist_key : Text → Text
blocklist_key jwt = codes "token_blocklist:" ++ jwt

abbrev pub verify_error : Error → Error
verify_error e =
    if errors_is e no_rows then known invalid_token else under (known token_fetch_failed) e

module _ (x : External) (cfg : Config) where
  -- The last steps of the transaction of `Signup`, for a user whose row has been written.
  unfoldable pub signup_rows : Text → ℕ → Text × Text → Io (ℕ × EmailMessage)
  unfolding Verifiers.create Profiles.set_profile Quotas.create
  signup_rows email id (token, token_hash) = do
    map_err (under (known verifier_token_create_failed))
        (Verifiers.create (new_verifier id token_hash))
    map_err (under (known set_profile_failed)) (Profiles.set_profile (new_profile id))
    map_err (under (known quota_create_failed)) (Quotas.create (new_quota id))
    pure (id, email_of email (codes "signup") token)

  -- Its first steps: the id of the new user, his token and its hash.
  unfoldable pub signup_user : Text → Text → Text → Text → Io (ℕ × (Text × Text))
  unfolding Users.get_by_email Pkg.generate_hash Users.create Pkg.generate_token
  signup_user email username fullname password = do
    found ← catch (Users.get_by_email email)
    raise_if (succeeded found) (known user_exists)
    hash ← map_err (under (known hash_gen_failed)) (Pkg.generate_hash x cfg password)
    created ←
        map_err (under (known user_create_failed))
          (Users.create x (new_user email username fullname hash))
    tokens ← Pkg.generate_token x
    pure (created.id, tokens)

  -- The body of the transaction of `Signup`, with the id of the user and the message to send.
  unfoldable pub signup_tx : Text → Text → Text → Text → Io (ℕ × EmailMessage)
  unfolding signup_user signup_rows
  signup_tx email username fullname password =
      signup_user email username fullname password >>= λ (r : ℕ × (Text × Text)).
      signup_rows email r.0 r.1

  unfoldable pub signup : Text → Text → Text → Text → Io ℕ
  unfolding with_tx signup_tx publish_email
  signup email username fullname password = do
    (id, msg) ← with_tx (signup_tx email username fullname password)
    map_err (under (known message_queue_failed)) (publish_email msg)
    pure id

  -- The token and the id of the user.
  unfoldable pub login : Text → Text → Io (Text × ℕ)
  unfolding Users.get_by_email Pkg.compare_hash_and_password Pkg.create
  login email password = do
    found ← map_err (λ _. known invalid_credential) (Users.get_by_email email)
    raise_if (not found.is_verified) (known user_not_verified)
    raise_if (not (Pkg.compare_hash_and_password x cfg found.password_hash password))
        (known invalid_credential)
    token ← Pkg.create x cfg found.fullname (x.uuid_string found.id) found.email found.role
    pure (token, found.id)

  -- `claims.ExpiresAt` is a pointer. A token that has expired needs no entry.
  unfoldable pub logout : Text → Payload → Io (Unit {0})
  unfolding Cache.set
  logout jwt claims = do
    now ← gets (λ w. w.now)
    expires ← of_result (elim claims.expires_at [ none ↦ err panic | some t ↦ ok t ])
    if leb expires now then pure tt else Cache.set (blocklist_key jwt) (codes "1") (expires - now)

  unfoldable pub forgot_password : Text → Io (Unit {0})
  unfolding Users.get_by_email Reseters.get_by_id Pkg.generate_token Reseters.create publish_email
  forgot_password email = do
    user ← map_err (no_rows_as (known user_not_found)) (Users.get_by_email email)
    raise_if (not user.is_verified) (known user_not_verified)
    old ← catch (Reseters.get_by_id user.id)
    of_result (elim old [
      | ok _ ↦ ok tt
      | err e ↦ if errors_is e no_rows then ok tt else err (under (known token_fetch_failed) e)
    ])
    (token, token_hash) ← Pkg.generate_token x
    map_err (under (known create_reset_token_failed))
        (Reseters.create (new_reseter user.id token_hash))
    map_err (under (known message_queue_failed))
        (publish_email (email_of user.email (codes "forgot-password") token))

  -- What `ResendVerify` does with the verifier that it finds, or does not find.
  unfoldable pub drop_verifier : Result Verifier → Io (Unit {0})
  unfolding Verifiers.delete
  drop_verifier (ok old) = Verifiers.delete old.id
  drop_verifier (err e) = raise_if (not (errors_is e no_rows)) (under (known token_fetch_failed) e)

  unfoldable pub resend_verify : Text → Io (Unit {0})
  unfolding Users.get_by_email Verifiers.get_by_id drop_verifier Pkg.generate_token Verifiers.create
      publish_email
  resend_verify email = do
    user ← map_err (no_rows_as (known user_not_found)) (Users.get_by_email email)
    raise_if user.is_verified (known user_already_verified)
    old ← catch (Verifiers.get_by_id user.id)
    drop_verifier old
    (token, token_hash) ← Pkg.generate_token x
    map_err (under (known verifier_token_create_failed))
        (Verifiers.create (new_verifier user.id token_hash))
    map_err (under (known message_queue_failed))
        (publish_email (email_of user.email (codes "resend-verify") token))

  unfoldable pub reset_password_get : Text → Io Text
  unfolding Reseters.get_by_token
  reset_password_get token = do
    map_err (under (known reseter_token_fetch_failed)) (Reseters.get_by_token token)
    pure token

  unfoldable pub reset_password_post : Text → Text → Text → Io (Unit {0})
  unfolding Reseters.get_by_token Users.get_by_id Pkg.generate_hash with_tx Users.update_password
      Reseters.delete_by_id publish_email
  reset_password_post token pass confirm_pass = do
    old ← map_err (under (known reseter_token_fetch_failed)) (Reseters.get_by_token token)
    raise_if (not (text_eq pass confirm_pass))
        (message "password and confirm_password do not match")
    user ← Users.get_by_id old.user_id
    hash ← Pkg.generate_hash x cfg pass
    with_tx (Users.update_password x user.id hash >> Reseters.delete_by_id old.id)
    map_err (under (known message_queue_failed))
        (publish_email (email_of user.email (codes "reset-password") []))

  unfoldable pub verify : Text → Io (Unit {0})
  unfolding Pkg.get_token_hash Verifiers.get_by_hash with_tx Users.set_verified Verifiers.delete
  verify token = do
    v ← map_err verify_error (Verifiers.get_by_hash (Pkg.get_token_hash x token))
    with_tx (
        map_err (under (known set_user_verified_failed)) (Users.set_verified v.user_id)
        >> Verifiers.delete v.id)
