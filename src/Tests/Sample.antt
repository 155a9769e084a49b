-- ===== src/Tests/Sample.antt =====
-- A concrete instance of the third-party functions and a small world. A uuid prints as one
-- character, a hash is the text behind one character, and a token of jwt holds one set of claims.
use ffgif.Base.{
  ℕ, ◌+◌, ◌*◌, ltb, Bool, true, false, Option, none, some, [], ◌∷◌, ◌++◌, Text, codes, text_eq,
  length, if◌then◌else◌,
}
use ffgif.World.{Db, World, External, Payload, Parsed, valid, expired, User, Gif}
use ffgif.Pkg.{Config, hour}

abbrev pub read_uuid : Text → Option ℕ
read_uuid [] = none
read_uuid (n ∷ []) = some n
read_uuid (n ∷ m ∷ t) = none

abbrev pub accepts : Text → Text → Bool
accepts [] pass = false
accepts (salt ∷ t) pass = text_eq t pass

abbrev pub claims : Payload
claims = record {
  fullname = codes "Ann";
  email = codes "a@x";
  role = codes "user";
  subject = 1 ∷ [];
  issuer = codes "ffgif";
  issued_at = some 0;
  expires_at = some (24 * hour);
}

abbrev pub parse : Text → Text → ℕ → Parsed
parse key token now = if ltb now (24 * hour) then valid claims else expired

abbrev pub sample : External
sample = record {
  uuid_string = λ n. n ∷ [];
  uuid_parse = read_uuid;
  char_length = length;
  sha256_hex = λ t. 0 ∷ t;
  bcrypt_generate = λ salt cost pass. some (salt ∷ pass);
  bcrypt_compare = accepts;
  jwt_sign = λ key payload. some (codes "jwt");
  jwt_parse = parse;
  numeric_date = λ n. n;
  presigned_get = λ headers key expiry. headers ++ key;
  presigned_put = λ key expiry. key;
  rfc3339_nano = λ n. n ∷ [];
}

abbrev pub config : Config
config = record { pepper = codes "pep"; cost = 4; jwt_secret_key = codes "key" }

abbrev pub ann : User
ann = record {
  id = 1;
  username = codes "ann";
  fullname = codes "Ann";
  email = codes "a@x";
  password_hash = 9 ∷ codes "pwpep";
  is_verified = true;
  role = codes "user";
  created_at = 0;
  updated_at = 0;
  deleted_at = none;
}

abbrev pub bob : User
bob = record ann { id = 2; username = codes "bob"; fullname = codes "Bob"; email = codes "b@x" }

abbrev pub cat : Gif
cat = record {
  key = codes "cat";
  name = codes "cat.gif";
  user_id = 1;
  status = codes "private";
  persist = true;
  download = 0;
  url = [];
  thumbnail_key = codes "cat.jpg";
  file_size_bytes = 10;
  width = 4;
  height = 3;
  duration_seconds = 2;
  is_public = false;
  created_at = 0;
  updated_at = 5;
}

abbrev pub tables : Db
tables = record {
  users = ann ∷ bob ∷ [];
  verifiers = [];
  reseters = [];
  profiles = [];
  quotas = [];
  friendships = [];
  gifs = cat ∷ [];
  shares = [];
  share_tokens = [];
  jobs = [];
  last_uploads = [];
}

-- Nothing fails, and the n-th uuid drawn is 100 + n.
abbrev pub calm : World
calm = record {
  db = tables;
  cache = [];
  emails = [];
  videos = [];
  saves = [];
  save_retries = [];
  objects = codes "cat" ∷ [];
  stat = λ key. none;
  sent = [];
  files = [];
  now = 1000;
  uuids = λ n. 100 + n;
  drawn = 0;
  serial = 1;
  outage = λ n. none;
  calls = 0;
}
