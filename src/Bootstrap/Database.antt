-- ===== src/Bootstrap/Database.antt =====
-- internal/infra/postgres/migration.go and connection.go. The identifiers that pq quotes are a
-- parameter.
use ffgif.Base.{zero, suc, ◌+◌, ◌==◌, Bool, true, false, [], ◌∷◌, ◌++◌, Text, codes, if◌then◌else◌}
use ffgif.Base.Int.{ℤ, pos, negsuc}
use ffgif.World.{Error, Result, ok, err}
use ffgif.Configuration.{PostgreSql}
use ffgif.Bootstrap.Script.{
  Script, Call, pure, raise, or_panic, ◌>>=◌, ◌>>◌, call, try_call, connect, open_database, exec,
  database_exists, with_instance, with_database_instance, migrate_up, migrate_down, migrate_steps,
}

unfoldable pub new_connection_string : PostgreSql → Text
new_connection_string cfg =
    codes "postgres://"
    ++ (cfg.user
        ++ (codes ":"
            ++ (cfg.pass
                ++ (codes "@"
                    ++ (cfg.addr
                        ++ (codes ":"
                            ++ (cfg.port
                                ++ (codes "/"
                                    ++ (cfg.database_name
                                        ++ (codes "?sslmode=" ++ cfg.ssl_mode))))))))))

-- `postgres://%s@%s:%s/%s?sslmode=%s` for the superuser and a database
unfoldable pub super_connection_string_to : PostgreSql → Text → Text
super_connection_string_to cfg database =
    codes "postgres://"
    ++ (cfg.super_user
        ++ (codes "@"
            ++ (cfg.addr
                ++ (codes ":"
                    ++ (cfg.port
                        ++ (codes "/" ++ (database ++ (codes "?sslmode=" ++ cfg.ssl_mode))))))))

unfoldable pub new_super_connection_string : PostgreSql → Text
unfolding super_connection_string_to
new_super_connection_string cfg = super_connection_string_to cfg cfg.super_database

-- An error of the connection is a panic.
unfoldable pub new_postgres_conn : PostgreSql → Script Bool
unfolding try_call new_connection_string
new_postgres_conn cfg = try_call (connect (new_connection_string cfg)) >>= or_panic

unfoldable pub new_postgres_super_conn : PostgreSql → Script Bool
unfolding try_call new_super_connection_string
new_postgres_super_conn cfg = try_call (connect (new_super_connection_string cfg)) >>= or_panic

-- `strings.ReplaceAll(s, "'", "''")`; the quote is 39.
unfoldable pub escape : Text → Text
escape [] = []
escape (c ∷ s) = if c == 39 then 39 ∷ 39 ∷ escape s else c ∷ escape s

abbrev pub quoted : Text → Text
quoted s = 39 ∷ (escape s ++ 39 ∷ [])

-- The block between the two `$$` in the statement that makes the role.
unfoldable pub role_block : (Text → Text) → PostgreSql → Text
unfolding escape
role_block quote_identifier cnf =
    codes "\n\t\tBEGIN\n\t\t\tIF NOT EXISTS (SELECT FROM pg_roles WHERE rolname = "
    ++ (quoted cnf.user
        ++ (codes ") THEN\n\t\t\t\tCREATE ROLE "
            ++ (quote_identifier cnf.user
                ++ (codes " WITH LOGIN PASSWORD "
                    ++ (quoted cnf.pass ++ codes ";\n\t\t\tEND IF;\n\t\tEND\n\t\t")))))

unfoldable pub role_statement : (Text → Text) → PostgreSql → Text
unfolding role_block
role_statement quote_identifier cnf =
    codes "\n\t\tDO $$" ++ (role_block quote_identifier cnf ++ codes "$$;\n\t")

-- The grants for a user in a database, both quoted.
unfoldable pub grants : Text → Text → Text
grants user database =
    codes "\n\t\t\tALTER DATABASE "
    ++ (database
        ++ (codes " OWNER TO "
            ++ (user
                ++ (codes ";\n\t\t\tALTER SCHEMA public OWNER TO "
                    ++ (user
                        ++ (codes ";\n\t\t\tGRANT ALL ON SCHEMA public TO "
                            ++ (user
                                ++ (codes
                                      ";\n\t\t\tGRANT ALL PRIVILEGES ON ALL TABLES IN SCHEMA public TO "
                                    ++ (user
                                        ++ (codes
                                              ";\n\t\t\tGRANT ALL PRIVILEGES ON ALL SEQUENCES IN SCHEMA public TO "
                                            ++ (user
                                                ++ (codes
                                                      ";\n\t\t\tGRANT ALL PRIVILEGES ON ALL ROUTINES IN SCHEMA public TO "
                                                    ++ (user
                                                        ++ (codes
                                                            ";\n\t\t\tCREATE EXTENSION IF NOT EXISTS pg_cron;\n\t\t\tGRANT USAGE ON SCHEMA cron TO "
                                                            ++ (user
                                                            ++ (codes
                                                            ";\n\t\t\tGRANT ALL PRIVILEGES ON ALL TABLES IN SCHEMA cron TO "
                                                            ++ (user
                                                            ++ (codes
                                                            ";\n\t\t\tGRANT ALL PRIVILEGES ON ALL SEQUENCES IN SCHEMA cron TO "
                                                            ++ (user
                                                            ++ (codes
                                                            ";\n\t\t\tGRANT ALL PRIVILEGES ON ALL ROUTINES IN SCHEMA cron TO "
                                                            ++ (user
                                                            ++ (codes
                                                            ";\n\t\t"))))))))))))))))))))))

module _ (quote_identifier : Text → Text) where
  unfoldable pub create_unless : PostgreSql → Bool → Script Bool
  unfolding call
  create_unless cnf true = pure true
  create_unless cnf false = call (
      exec (
        codes "CREATE DATABASE "
        ++ (quote_identifier cnf.database_name ++ (codes " OWNER " ++ quote_identifier cnf.user))))

  -- The grants in the new database, whose errors are not looked at.
  unfoldable pub grant_in : PostgreSql → Result Bool → Script (Result Bool)
  unfolding try_call grants
  grant_in cnf (err e) = pure (err e)
  grant_in cnf (ok _) =
      try_call (exec (grants (quote_identifier cnf.user) (quote_identifier cnf.database_name)))

  unfoldable pub setup_database : PostgreSql → Script (Result Bool)
  unfolding new_postgres_super_conn role_statement create_unless grant_in call try_call
      super_connection_string_to
  setup_database cnf =
      new_postgres_super_conn cnf
      >> call (exec (role_statement quote_identifier cnf))
      >> (call (database_exists cnf.database_name) >>= create_unless cnf)
      >> call (
          exec (
            codes "GRANT ALL PRIVILEGES ON DATABASE "
            ++ (quote_identifier cnf.database_name ++ (codes " TO " ++ quote_identifier cnf.user))))
      >> (try_call (open_database (super_connection_string_to cnf cnf.database_name))
          >>= grant_in cnf)

-- What `Run` and `Rollback` do first.
unfoldable pub open_migration : PostgreSql → Script Bool
unfolding call new_connection_string
open_migration cnf =
    call (open_database (new_connection_string cnf))
    >> call (with_instance (new_connection_string cnf))
    >> call (with_database_instance (codes "file://migrations"))

-- `err != nil && err != migrate.ErrNoChange`
unfoldable pub unless_no_change : (Error → Bool) → Result Bool → Script Bool
unless_no_change is_no_change (ok b) = pure b
unless_no_change is_no_change (err e) = if is_no_change e then pure false else raise e

-- The test for migrate.ErrNoChange is a parameter.
unfoldable pub run : (Error → Bool) → PostgreSql → Script Bool
unfolding open_migration try_call unless_no_change
run is_no_change cnf = open_migration cnf >> (try_call migrate_up >>= unless_no_change is_no_change)

unfoldable pub negated : ℤ → ℤ
negated (pos zero) = pos 0
negated (pos (suc n)) = negsuc n
negated (negsuc n) = pos (n + 1)

abbrev pub steps_of : ℤ → Call
steps_of (pos zero) = migrate_down
steps_of n = migrate_steps (negated n)

unfoldable pub rollback : PostgreSql → ℤ → Script Bool
unfolding open_migration call negated
rollback cnf steps = open_migration cnf >> call (steps_of steps)
