-- ===== src/Bootstrap/Script.antt =====
-- A set-up as a script of calls to the services. The services are a parameter: what they answer to
-- a call, by the calls and answers before it. A call is written with what the program passes.
use ffgif.Base.{Bool, List, ◌∷◌, Text}
use ffgif.Base.Int.{ℤ}
use ffgif.World.{Error, Result, ok, err, panic, wrap}
use ffgif.Workers.Topology.{QueueDecl}

pub data Call : Type 0 where
  -- minio-go: a client for an endpoint, with a user, a password and whether the way is secure
  new_client : Text → Text → Text → Bool → Call
  bucket_exists make_bucket : Text → Call
  get_bucket_notification get_bucket_lifecycle get_bucket_cors : Text → Call
  -- with the ARN and the event
  set_bucket_notification : Text → Text → Text → Call
  -- with the id of the one rule and the days until an object expires
  set_bucket_lifecycle : Text → Text → ℤ → Call
  -- sqlx.Connect and sql.Open with a connection string, Exec, and a query for a Boolean
  connect open_database exec : Text → Call
  database_exists : Text → Call
  -- golang-migrate: a driver for a database, a migration from a directory, and its runs
  with_instance : Text → Call
  with_database_instance : Text → Call
  migrate_up migrate_down : Call
  migrate_steps : ℤ → Call
  -- amqp: a connection, a channel, an exchange, a queue, and a binding of a queue to an exchange
  dial : Text → Call
  channel : Call
  exchange_declare : Text → Call
  queue_declare : QueueDecl → Call
  queue_bind : Text → Text → Call

pub data Answer : Type 0 where
  fails : Error → Answer
  says : Bool → Answer

-- The calls so far, the last one first, with their answers.
abbrev pub History : Type 0
History = List (Call × Answer)

abbrev pub Services : Type 0
Services = History → Call → Answer

abbrev pub Script : Type 0 → Type 0
Script A = Services → History → Result A × History

module _ {A : Type 0} where
  abbrev pub pure : A → Script A
  pure a s h = (ok a, h)

  abbrev pub raise : Error → Script A
  raise e s h = (err e, h)

infixl 5 ◌>>=◌ ◌>>◌
abbrev pub ◌>>=◌ : {A B : Type 0} → Script A → (A → Script B) → Script B
◌>>=◌ m f s h = let (r, h') = m s h in elim r [ ok a ↦ f a s h' | err e ↦ (err e, h') ]

abbrev pub ◌>>◌ : {A B : Type 0} → Script A → Script B → Script B
m >> k = m >>= λ _. k

abbrev pub answered : Answer → Result Bool
answered (fails e) = err e
answered (says b) = ok b

unfoldable pub call : Call → Script Bool
call c s h = let a = s h c in (answered a, (c, a) ∷ h)

-- A call whose error is looked at, and not given on.
unfoldable pub try_call : Call → Script (Result Bool)
try_call c s h = let a = s h c in (ok (answered a), (c, a) ∷ h)

-- `if err != nil { panic(err) }`
abbrev pub or_panic : Result Bool → Script Bool
or_panic (ok b) = pure b
or_panic (err e) = raise panic

-- `if err != nil { return fmt.Errorf("…: %w", err) }`
abbrev pub or_wrapped : Result Bool → Script Bool
or_wrapped (ok b) = pure b
or_wrapped (err e) = raise (wrap e)
