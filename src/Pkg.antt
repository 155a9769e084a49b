-- ===== src/Pkg.antt =====
-- pkg/token, pkg/password and pkg/jwt: the program's use of sha256, bcrypt and jwt.
use ffgif.Base.{ℕ, ◌+◌, ◌*◌, Bool, ◌||◌, none, some, Text, codes, text_eq, [], ◌++◌, if◌then◌else◌}
use ffgif.World.{
  Io, ok, err, gets, of_result, raise_if, ◌>>=◌, ◌>>◌, pure, draw_uuid, External, Payload, known,
  message, wrap, token_expired, empty_value, valid, expired, malformed,
}

-- What the program is configured with: password.Hasher and jwt.Jwt.
pub record Config : Type 0 where
  pub pepper : Text
  pub cost : ℕ
  pub jwt_secret_key : Text

-- Time is in nanoseconds.
abbrev pub second : ℕ
second = 1_000_000_000

abbrev pub minute : ℕ
minute = 60 * second

abbrev pub hour : ℕ
hour = 60 * minute

module _ (x : External) where
  unfoldable pub get_token_hash : Text → Text
  get_token_hash token = x.sha256_hex token

  -- The token, and the hash of it that is stored.
  unfoldable pub generate_token : Io (Text × Text)
  unfolding draw_uuid get_token_hash
  generate_token = do
    id ← draw_uuid
    let token = x.uuid_string id
    pure (token, get_token_hash token)

module _ (x : External) (cfg : Config) where
  -- The salt comes from the source of random values that the uuids come from.
  unfoldable pub generate_hash : Text → Io Text
  unfolding draw_uuid
  generate_hash pass = do
    salt ← draw_uuid
    of_result (elim (x.bcrypt_generate salt cfg.cost (pass ++ cfg.pepper)) [
      | none ↦ err (message "bcrypt")
      | some hash ↦ ok hash
    ])

  unfoldable pub compare_hash_and_password : Text → Text → Bool
  compare_hash_and_password hashed pass = x.bcrypt_compare hashed (pass ++ cfg.pepper)

  -- The claims that `Jwt.Create` signs at a time.
  unfoldable pub claims_of : Text → Text → Text → Text → ℕ → Payload
  claims_of fullname id email role now = record {
    fullname = fullname;
    email = if text_eq role (codes "anon") then [] else email;
    role = role;
    subject = id;
    issuer = codes "ffgif";
    issued_at = some (x.numeric_date now);
    expires_at = some (x.numeric_date (now + 24 * hour));
  }

  -- Jwt.Create
  unfoldable pub create : Text → Text → Text → Text → Io Text
  unfolding claims_of
  create fullname id email role = do
    raise_if (text_eq fullname [] || text_eq role []) (known empty_value)
    now ← gets (λ w. w.now)
    of_result (elim (x.jwt_sign cfg.jwt_secret_key (claims_of fullname id email role now)) [
      | none ↦ err (message "jwt: sign")
      | some token ↦ ok token
    ])

  -- Jwt.Verify
  unfoldable pub verify : Text → Io Payload
  verify token = do
    now ← gets (λ w. w.now)
    of_result (elim (x.jwt_parse cfg.jwt_secret_key token now) [
      | valid claims ↦ ok claims
      | expired ↦ err (wrap (known token_expired))
      | malformed ↦ err (message "jwt: malformed")
    ])
