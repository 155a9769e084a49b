-- ===== src/Configuration.antt =====
-- The records of config/config.go; Configuration/Load is what fills them.
use ffgif.Base.{Bool, List, Text}
use ffgif.Base.Int.{ℤ}
pub mod Load

pub record PostgreSql : Type 0 where
  pub user : Text
  pub pass : Text
  pub port : Text
  pub addr : Text
  pub database_name : Text
  pub ssl_mode : Text
  pub super_user : Text
  pub super_database : Text

pub record Redis : Type 0 where
  pub addr : Text
  pub user : Text
  pub pass : Text

pub record Mailtrap : Type 0 where
  pub user : Text
  pub pass : Text

pub record Minio : Type 0 where
  pub endpoint : Text
  pub public_endpoint : Text
  pub root_user : Text
  pub root_pass : Text
  pub presigned_user : Text
  pub presigned_pass : Text
  pub storage_bucket : Text
  pub temp_bucket : Text
  pub ttl : ℤ
  pub max_upload_bytes : ℤ
  pub secure : Bool
  pub exchange_queue : Text
  pub allowed : List Text

pub record RabbitMq : Type 0 where
  pub addr : Text
  pub user : Text
  pub pass : Text

pub record Smtp : Type 0 where
  pub host : Text
  pub port : ℤ
  pub user : Text
  pub pass : Text

pub record Config : Type 0 where
  pub version : Text
  pub addr : Text
  pub port : ℤ
  pub service : Text
  pub jwt_secret : Text
  pub bcrypt_cost : ℤ
  pub hash_pepper : Text
  pub postgre_sql : PostgreSql
  pub redis : Redis
  pub email : Text
  pub mailtrap : Mailtrap
  pub minio : Minio
  pub rabbit_mq : RabbitMq
  pub smtp : Smtp
