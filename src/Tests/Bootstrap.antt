-- ===== src/Tests/Bootstrap.antt =====
-- The set-up of a development machine, against services of which some fail.
use ffgif.Base.{
  text_eq, if◌then◌else◌, ◌≡◌, refl, true, false, some, [], ◌++◌, Text, codes, contains_byte,
}
use ffgif.Base.Int.{pos}
use ffgif.World.{message, Error}
use ffgif.Configuration.{Config, PostgreSql}
use ffgif.Bootstrap.Script.{
  bucket_exists, set_bucket_notification, exec, fails, Services, says, pure,
}
use ffgif.Bootstrap.Database
use ffgif.Bootstrap.Commands
use ffgif.Bootstrap.Stops.{Ends}
use ffgif.Bootstrap.All.{all_setup-Ends}
use ffgif.Bootstrap.Literal.{
  read_literal, until_dollars, before_pass, after_pass, do_body, role_statement-read,
}

abbrev bare : Text → Text
bare t = t

abbrev database : PostgreSql
database = record {
  user = codes "gif";
  pass = codes "it's";
  port = codes "5432";
  addr = codes "db";
  database_name = codes "ffgif";
  ssl_mode = codes "disable";
  super_user = codes "postgres";
  super_database = codes "postgres";
}

abbrev local : Config
local = record {
  version = codes "1";
  addr = codes "api";
  port = pos 8080;
  service = codes "ffgif";
  jwt_secret = codes "secret";
  bcrypt_cost = pos 10;
  hash_pepper = codes "pepper";
  postgre_sql = database;
  redis = record { addr = codes "redis"; user = []; pass = [] };
  email = codes "a@b.c";
  mailtrap = record { user = []; pass = [] };
  minio = record {
    endpoint = codes "minio";
    public_endpoint = codes "files";
    root_user = codes "root";
    root_pass = codes "root";
    presigned_user = codes "sign";
    presigned_pass = codes "sign";
    storage_bucket = codes "gifs";
    temp_bucket = codes "temp";
    ttl = pos 1;
    max_upload_bytes = pos 100;
    secure = false;
    exchange_queue = codes "minio.events";
    allowed = [];
  };
  rabbit_mq = record { addr = codes "mq"; user = codes "u"; pass = codes "p" };
  smtp = record { host = codes "mail"; port = pos 25; user = []; pass = [] };
}

-- Services without buckets: those for GIFs and uploads have to be made, and the notifications are
-- refused.
abbrev bare_storage : Services
bare_storage h (bucket_exists name) = says false
bare_storage h (set_bucket_notification bucket arn event) = fails (message "no such ARN")
bare_storage h (exec sql) =
    if text_eq sql (Database.grants database.user database.database_name)
    then fails (message "no such role")
    else says true
bare_storage h c = says true

all_setup-Ends_example :
    Ends bare
      (λ (e : Error). false)
      database
      (Commands.all_setup bare (λ (e : Error). false) local false (pure true) bare_storage [])
all_setup-Ends_example = all_setup-Ends bare (λ (e : Error). false) local bare_storage

role_statement-read_example :
    (until_dollars (do_body bare database)
      ≡ some (
        before_pass bare database ++ (Database.escape database.pass ++ after_pass),
        codes ";\n\t",
      ))
    × (read_literal false (Database.escape database.pass ++ after_pass)
        ≡ some (database.pass, codes ";\n\t\t\tEND IF;\n\t\tEND\n\t\t"))
unfolding contains_byte
role_statement-read_example = role_statement-read bare database refl refl refl
