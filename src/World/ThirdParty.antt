-- ===== src/World/ThirdParty.antt =====
-- The third-party functions that the program calls, as a parameter: package uuid, package bcrypt,
-- package jwt/v5, crypto/sha256 with encoding/hex, and PostgreSQL's cast from text to uuid.
use ffgif.Base.{ℕ, Bool, Option, Text}

-- The claims of a token (pkg/jwt/jwt.go, Payload).
pub record Payload : Type 0 where
  pub fullname : Text
  pub email : Text
  pub role : Text
  pub subject : Text
  pub issuer : Text
  pub issued_at : Option ℕ
  pub expires_at : Option ℕ

-- What jwt.ParseWithClaims says of a token.
pub data Parsed : Type 0 where
  valid : Payload → Parsed
  expired : Parsed
  malformed : Parsed

pub record External : Type 0 where
  -- uuid.UUID.String, uuid.Parse and the cast of PostgreSQL
  pub uuid_string : ℕ → Text
  pub uuid_parse : Text → Option ℕ
  -- the number of characters of a text, which VARCHAR limits
  pub char_length : Text → ℕ
  -- hex(sha256(s))
  pub sha256_hex : Text → Text
  -- bcrypt.GenerateFromPassword: salt, cost, password; and CompareHashAndPassword
  pub bcrypt_generate : ℕ → ℕ → Text → Option Text
  pub bcrypt_compare : Text → Text → Bool
  -- jwt: signing with a key; parsing with a key at a time; NewNumericDate
  pub jwt_sign : Text → Payload → Option Text
  pub jwt_parse : Text → Text → ℕ → Parsed
  pub numeric_date : ℕ → ℕ
  -- minio-go: the presigned URLs; the first argument of a GET stands for its response headers
  pub presigned_get : Text → Text → ℕ → Text
  pub presigned_put : Text → ℕ → Text
  -- time.Time.Format(time.RFC3339Nano)
  pub rfc3339_nano : ℕ → Text
