-- ===== src/Configuration/Load.antt =====
-- loadConfig of config/config.go. What viper finds for a key, in the environment or in the file
-- .env, and how it reads a number or a truth value from a text, are parameters; a log.Panic is a
-- result with the key.
use ffgif.Base.{
  ◌==◌, ◌≡◌, arith, Bool, false, Option, none, some, List, [], ◌∷◌, Text, codes, text_eq,
  if◌then◌else◌, map,
}
use ffgif.Base.Int.{ℤ}
use ffgif.Configuration.{PostgreSql, Redis, Mailtrap, Minio, RabbitMq, Smtp, Config}

pub record Viper : Type 0 where
  pub lookup : Text → Option Text
  pub to_int : Text → ℤ
  pub to_bool : Text → Bool
  -- strings.TrimSpace
  pub trim_space : Text → Text

pub data Loaded (A : Type 0) : Type 0 where
  -- log.Panic(key)
  panics : Text → Loaded A
  loaded : A → Loaded A

infixl 5 ◌>>=◌
abbrev ◌>>=◌ : {A B : Type 0} → Loaded A → (A → Loaded B) → Loaded B
◌>>=◌ m f = elim m [ panics key ↦ panics key | loaded a ↦ f a ]

-- viper.SetDefault
unfoldable pub default_of : Text → Text
unfolding text_eq
default_of key =
    if text_eq key (codes "BCRYPT_COST")
    then codes "12"
    else if text_eq key (codes "PG_SSLMODE")
    then codes "disable"
    else if text_eq key (codes "MINIO_TEMP_BUCKET_TTL_DAYS")
    then codes "1"
    else if text_eq key (codes "ADDR")
    then codes "0.0.0.0"
    else if text_eq key (codes "MINIO_MAX_UPLOAD_BYTES")
    then codes "104857600"
    else if text_eq key (codes "MINIO_USE_TLS")
    then codes "false"
    else []

-- strings.Split at commas (44)
unfoldable pub split : Text → List Text
split [] = [] ∷ []
split (c ∷ s) =
    let rest = split s in
    if c == 44 then [] ∷ rest else elim rest [ [] ↦ (c ∷ []) ∷ [] | w ∷ ws ↦ (c ∷ w) ∷ ws ]

module _ (v : Viper) where
  unfoldable pub get_string : Text → Text
  unfolding default_of
  get_string key = elim (v.lookup key) [ none ↦ default_of key | some t ↦ t ]

  unfoldable pub required : Text → Loaded Text
  unfolding get_string text_eq
  required key = let val = get_string key in if text_eq val [] then panics key else loaded val

  -- A value that may be empty, and the one that is required then.
  unfoldable pub or_required : Text → Text → Loaded Text
  unfolding get_string required text_eq
  or_required key other =
      if text_eq (get_string key) [] then required other else loaded (get_string key)

  unfoldable pub load_postgre_sql : Loaded PostgreSql
  unfolding get_string required
  load_postgre_sql = do
    user' ← required (codes "PG_USER")
    pass' ← required (codes "PG_PASSWORD")
    port' ← required (codes "PG_PORT")
    addr' ← required (codes "PG_ADDRESS")
    database_name' ← required (codes "PG_NAME")
    super_user' ← required (codes "PG_SUPERUSER")
    super_database' ← required (codes "PG_SUPERDB")
    loaded (record {
      user = user';
      pass = pass';
      port = port';
      addr = addr';
      database_name = database_name';
      ssl_mode = get_string (codes "PG_SSLMODE");
      super_user = super_user';
      super_database = super_database';
    })

  unfoldable pub load_redis : Loaded Redis
  unfolding get_string required
  load_redis = do
    addr' ← required (codes "REDIS_ADDR")
    loaded (record {
      addr = addr';
      user = get_string (codes "REDIS_USER");
      pass = get_string (codes "REDIS_PASSWORD");
    })

  unfoldable pub load_mailtrap : Loaded Mailtrap
  unfolding get_string required
  load_mailtrap = do
    user' ← required (codes "MAILTRAP_USERNAME")
    pass' ← required (codes "MAILTRAP_PASSWORD")
    loaded (record { user = user'; pass = pass' })

  unfoldable pub load_minio : List Text → Text → Text → Loaded Minio
  unfolding get_string required
  load_minio origins presigned_user presigned_pass = do
    endpoint' ← required (codes "MINIO_ADDR")
    public_endpoint' ← required (codes "MINIO_PUBLIC_ENDPOINT")
    root_user' ← required (codes "MINIO_ROOT_USER")
    root_pass' ← required (codes "MINIO_ROOT_PASSWORD")
    storage_bucket' ← required (codes "MINIO_PERSIST_BUCKET")
    temp_bucket' ← required (codes "MINIO_TEMP_BUCKET")
    exchange_queue' ← required (codes "MINIO_NOTIFY_EXCHANGE")
    loaded (record {
      endpoint = endpoint';
      public_endpoint = public_endpoint';
      root_user = root_user';
      root_pass = root_pass';
      presigned_user = presigned_user;
      presigned_pass = presigned_pass;
      storage_bucket = storage_bucket';
      temp_bucket = temp_bucket';
      ttl = v.to_int (get_string (codes "MINIO_TEMP_BUCKET_TTL_DAYS"));
      max_upload_bytes = v.to_int (get_string (codes "MINIO_MAX_UPLOAD_BYTES"));
      secure = v.to_bool (get_string (codes "MINIO_USE_TLS"));
      exchange_queue = exchange_queue';
      allowed = origins;
    })

  unfoldable pub load_rabbit_mq : Loaded RabbitMq
  unfolding get_string required
  load_rabbit_mq = do
    addr' ← required (codes "RMQ_ADDR")
    user' ← required (codes "RMQ_USER")
    pass' ← required (codes "RMQ_PASS")
    loaded (record { addr = addr'; user = user'; pass = pass' })

  unfoldable pub load_smtp : Loaded Smtp
  unfolding get_string required
  load_smtp = do
    host' ← required (codes "SMTP_HOST")
    user' ← required (codes "SMTP_USER")
    pass' ← required (codes "SMTP_PASS")
    loaded (record {
      host = host';
      port = v.to_int (get_string (codes "SMTP_PORT"));
      user = user';
      pass = pass';
    })

  -- Go evaluates the fields from the first to the last.
  unfoldable pub load_config : Loaded Config
  unfolding get_string required or_required split load_postgre_sql load_redis load_mailtrap
      load_minio load_rabbit_mq load_smtp
  load_config = do
    allowed ← required (codes "MINIO_API_CORS_ALLOW_ORIGIN")
    let origins = map v.trim_space (split allowed)
    presigned_user ← or_required (codes "MINIO_PRESIGNED_USER") (codes "MINIO_ROOT_USER")
    presigned_pass ← or_required (codes "MINIO_PRESIGNED_PASSWORD") (codes "MINIO_ROOT_PASSWORD")
    version ← required (codes "VERSION")
    service ← required (codes "SERVICE_NAME")
    jwt_secret ← required (codes "JWT_SECRET")
    hash_pepper ← required (codes "HASH_PEPPER")
    postgre_sql ← load_postgre_sql
    redis ← load_redis
    email ← required (codes "EMAIL")
    mailtrap ← load_mailtrap
    minio ← load_minio origins presigned_user presigned_pass
    rabbit_mq ← load_rabbit_mq
    smtp ← load_smtp
    loaded (record {
      version = version;
      addr = get_string (codes "ADDR");
      port = v.to_int (get_string (codes "PORT"));
      service = service;
      jwt_secret = jwt_secret;
      bcrypt_cost = v.to_int (get_string (codes "BCRYPT_COST"));
      hash_pepper = hash_pepper;
      postgre_sql = postgre_sql;
      redis = redis;
      email = email;
      mailtrap = mailtrap;
      minio = minio;
      rabbit_mq = rabbit_mq;
      smtp = smtp;
    })

  -- The key of the tokens and the pepper of the passwords are not empty.
  abbrev pub HasSecrets : Config → Type 0
  HasSecrets c = (text_eq c.jwt_secret [] ≡ false) × (text_eq c.hash_pepper [] ≡ false)

  -- A configuration that is loaded has a key and a pepper, whatever the environment and the file say.
  load_config-HasSecrets : (c : Config) → load_config ≡ loaded c → HasSecrets c
  unfolding load_config
  load_config-HasSecrets c h = ground arith
