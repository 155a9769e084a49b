-- ===== src/Bootstrap/Commands.antt =====
-- cmd/bootstrap/cmd: migration.go, minio.go, rabbitmq.go and all.go. The seed is in Seed; here it
-- stands for a script.
use ffgif.Base.{Bool, true, false, Text}
use ffgif.Base.Int.{pos}
use ffgif.World.{Error, Result, message}
use ffgif.Configuration.{Config}
use ffgif.Bootstrap.Script.{Script, raise, ◌>>◌}
use ffgif.Bootstrap.Storage
use ffgif.Bootstrap.Database
use ffgif.Bootstrap.Queues

module _ (quote_identifier : Text → Text) (is_no_change : Error → Bool) (cnf : Config) where
  -- The switch over the flags `all`, which falls through to `up`, `up` and `down`.
  unfoldable pub setup_database : Bool → Bool → Bool → Script Bool
  unfolding Database.setup_database Database.run Database.rollback
  setup_database true up down =
      Database.setup_database quote_identifier cnf.postgre_sql
      >> Database.run is_no_change cnf.postgre_sql
  setup_database false true down = Database.run is_no_change cnf.postgre_sql
  setup_database false false true = Database.rollback cnf.postgre_sql (pos 0)
  setup_database false false false = raise (message "No valid flag provided.")

  unfoldable pub setup_storage : Script (Result Bool)
  unfolding Storage.new_minio Storage.setup
  setup_storage = Storage.new_minio cnf.minio >> Storage.setup cnf.minio

  unfoldable pub setup_message_queue : Script Bool
  unfolding Queues.new_rabbit_mq Queues.setup
  setup_message_queue = Queues.new_rabbit_mq cnf.rabbit_mq >> Queues.setup cnf.minio

  unfoldable pub all_setup : Bool → Script Bool → Script Bool
  unfolding setup_database setup_storage setup_message_queue
  all_setup true seed =
      setup_database true false false >> setup_storage >> setup_message_queue >> seed
  all_setup false seed = setup_database true false false >> setup_storage >> setup_message_queue
