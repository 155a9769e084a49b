-- ===== src/Bootstrap/All.antt =====
-- `bootstrap all` (cmd/bootstrap/cmd/all.go) when a service fails.
use ffgif.Base.{◌≡◌, refl, inl, Bool, true, false, [], ◌∷◌, ◌++◌, codes, if◌then◌else◌, Text}
use ffgif.World.{Error, Result, ok, err}
use ffgif.Configuration.{Config, PostgreSql}
use ffgif.Bootstrap.Script.{
  Answer, fails, says, Services, ◌>>=◌, ◌>>◌, call, try_call, answered, exec, connect,
  open_database, database_exists, with_instance, with_database_instance, migrate_up, pure, raise,
}
use ffgif.Bootstrap.Database
use ffgif.Bootstrap.Commands
use ffgif.Bootstrap.Stops.{
  Ends, Stops, Stops-bind, Stops-then, Stops-call, Stops-try_call, connection-Stops, queues-Stops,
  storage-Stops,
}

module _ (quote_identifier : Text → Text) (is_no_change : Error → Bool) (cnf : PostgreSql) where
  super-Stops : Stops quote_identifier is_no_change cnf (Database.new_postgres_super_conn cnf)
  unfolding Database.new_postgres_super_conn
  super-Stops =
      connection-Stops quote_identifier is_no_change cnf
        (connect (Database.new_super_connection_string cnf)) (λ t. tt)

  create-Stops :
      (b : Bool)
      → Stops quote_identifier is_no_change cnf (Database.create_unless quote_identifier cnf b)
  unfolding Database.create_unless
  create-Stops true s h g = g
  create-Stops false s h g = Stops-call quote_identifier is_no_change cnf (exec _) (λ t. tt) s h g

  grant-Stops :
      (r : Result Bool)
      → Stops quote_identifier is_no_change cnf (Database.grant_in quote_identifier cnf r)
  unfolding Database.grant_in
  grant-Stops (err e) s h g = g
  grant-Stops (ok b) s h g =
      let sql = Database.grants (quote_identifier cnf.user) (quote_identifier cnf.database_name) in
      Stops-try_call quote_identifier is_no_change cnf (exec sql) (λ t. tt) (λ e. refl) s h g

  database-Stops :
      Stops quote_identifier is_no_change cnf (Database.setup_database quote_identifier cnf)
  unfolding Database.setup_database
  database-Stops =
      let a = Database.new_postgres_super_conn cnf in
      let b = call (exec (Database.role_statement quote_identifier cnf)) in
      let c =
        call (database_exists cnf.database_name) >>= Database.create_unless quote_identifier cnf in
      let d = call (
        exec (
          codes "GRANT ALL PRIVILEGES ON DATABASE "
          ++ (quote_identifier cnf.database_name
              ++ (codes " TO " ++ quote_identifier cnf.user)))) in
      let dsn = Database.super_connection_string_to cnf cnf.database_name in
      let e = try_call (open_database dsn) in
      Stops-then quote_identifier is_no_change cnf (a >> b >> c >> d)
        (e >>= Database.grant_in quote_identifier cnf)
        (Stops-then quote_identifier is_no_change cnf (a >> b >> c) d
          (Stops-then quote_identifier is_no_change cnf (a >> b) c
            (Stops-then quote_identifier is_no_change cnf a b super-Stops (
              Stops-call quote_identifier is_no_change cnf
                (exec (Database.role_statement quote_identifier cnf)) (λ t. tt)))
            (Stops-bind quote_identifier is_no_change cnf (call (database_exists cnf.database_name))
              (Database.create_unless quote_identifier cnf)
              (Stops-call quote_identifier is_no_change cnf (database_exists cnf.database_name)
                (λ t. tt))
              create-Stops))
          (Stops-call quote_identifier is_no_change cnf (exec _) (λ t. tt)))
        (Stops-bind quote_identifier is_no_change cnf e (Database.grant_in quote_identifier cnf)
          (Stops-try_call quote_identifier is_no_change cnf (open_database dsn) (λ t. tt)
            (λ e. refl))
          grant-Stops)

  open-Stops : Stops quote_identifier is_no_change cnf (Database.open_migration cnf)
  unfolding Database.open_migration
  open-Stops =
      let a = call (open_database (Database.new_connection_string cnf)) in
      let b = call (with_instance (Database.new_connection_string cnf)) in
      let c = call (with_database_instance (codes "file://migrations")) in
      Stops-then quote_identifier is_no_change cnf (a >> b) c
        (Stops-then quote_identifier is_no_change cnf a b
          (Stops-call quote_identifier is_no_change cnf (open_database _) (λ t. tt))
          (Stops-call quote_identifier is_no_change cnf (with_instance _) (λ t. tt)))
        (Stops-call quote_identifier is_no_change cnf (with_database_instance _) (λ t. tt))

  up-Stops :
      Stops quote_identifier is_no_change cnf
        (try_call migrate_up >>= Database.unless_no_change is_no_change)
  unfolding try_call Database.unless_no_change
  up-Stops s h g = by_answer (s h migrate_up)
    where
      by_test :
          (e : Error) (b : Bool)
          → is_no_change e ≡ b
          → Ends quote_identifier is_no_change cnf {A = Bool}
              ((if b then pure false else raise e) s ((migrate_up, fails e) ∷ h))
      by_test e true same = (tt, same, g)
      by_test e false same = (tt, inl refl, g)

      by_answer :
          (a : Answer)
          → Ends quote_identifier is_no_change cnf {A = Bool}
              (Database.unless_no_change is_no_change (answered a) s ((migrate_up, a) ∷ h))
      by_answer (fails e) = by_test e (is_no_change e) refl
      by_answer (says b) = (tt, tt, g)

  run-Stops : Stops quote_identifier is_no_change cnf (Database.run is_no_change cnf)
  unfolding Database.run
  run-Stops =
      Stops-then quote_identifier is_no_change cnf (Database.open_migration cnf)
        (try_call migrate_up >>= Database.unless_no_change is_no_change) open-Stops up-Stops

-- `bootstrap all` stops at once when a service fails, and makes no bucket twice. Whatever the services
-- answer: if it succeeds, then no call has failed but those whose errors the code does not look at
-- (the reads that are logged, the way to the new database and the grants in it, a migration with
-- nothing to do); if it fails, then the last call that it made is one that failed, its error is given
-- on, as it is or wrapped, or the program panics, and no other failed before it; and a bucket is only
-- made where the storage has said just before that it is missing.
pub all_setup-Ends :
    (quote_identifier : Text → Text) (is_no_change : Error → Bool) (cnf : Config) (s : Services)
    → Ends quote_identifier is_no_change cnf.postgre_sql
        (Commands.all_setup quote_identifier is_no_change cnf false (pure true) s [])
unfolding Commands.all_setup
all_setup-Ends quote_identifier is_no_change cnf s =
    let pg = cnf.postgre_sql in
    let a = Database.setup_database quote_identifier pg in
    let b = Database.run is_no_change pg in
    let c = Commands.setup_storage quote_identifier is_no_change cnf in
    let d = Commands.setup_message_queue quote_identifier is_no_change cnf in
    Stops-then quote_identifier is_no_change pg ((a >> b) >> c) d
      (Stops-then quote_identifier is_no_change pg (a >> b) c
        (Stops-then quote_identifier is_no_change pg a b
          (database-Stops quote_identifier is_no_change pg)
          (run-Stops quote_identifier is_no_change pg))
        (storage-Stops quote_identifier is_no_change pg cnf.minio))
      (queues-Stops quote_identifier is_no_change pg cnf) s [] tt
