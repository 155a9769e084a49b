-- ===== src/Bootstrap/Stops.antt =====
-- What a set-up does when a service fails, and what it makes.
use ffgif.Base.{
  ◌≡◌, refl, ◌⊎◌, inl, inr, Bool, true, false, Option, some, none, List, [], ◌∷◌, Text,
}
use ffgif.Base.Int.{ℤ}
use ffgif.World.{Error, Result, ok, err, panic, wrap}
use ffgif.Configuration.{PostgreSql, Config, Minio}
use ffgif.Workers.Topology as Topology
use ffgif.Workers.Topology.{QueueDecl}
use ffgif.Bootstrap.Script.{
  Call, open_database, exec, migrate_up, Answer, fails, says, History, Services, Script, ◌>>=◌,
  ◌>>◌, call, try_call, bucket_exists, make_bucket, or_panic, or_wrapped, new_client, answered,
  set_bucket_notification, set_bucket_lifecycle, get_bucket_notification, get_bucket_lifecycle,
  get_bucket_cors, queue_declare, exchange_declare, queue_bind, channel, dial,
}
use ffgif.Bootstrap.Storage
use ffgif.Bootstrap.Database
use ffgif.Bootstrap.Queues

-- The last answer was that there is no such bucket.
abbrev pub IsMissing : Text → History → Type 0
IsMissing name [] = ⊥
IsMissing name ((c, fails e) ∷ t) = ⊥
IsMissing name ((c, says b) ∷ t) = (c ≡ bucket_exists name) × (b ≡ false)

abbrev pub MayFollow : Call → History → Type 0
MayFollow (make_bucket name) t = IsMissing name t
MayFollow _ t = Unit

module _ (quote_identifier : Text → Text) (is_no_change : Error → Bool) (pg : PostgreSql) where
  -- The calls whose errors are not looked at: the reads that are only logged, the superuser's way to
  -- the new database and the grants in it; and a migration that has nothing to do.
  abbrev pub MayFail : Call → Error → Type 0
  MayFail (get_bucket_notification name) e = Unit
  MayFail (get_bucket_lifecycle name) e = Unit
  MayFail (get_bucket_cors name) e = Unit
  MayFail (open_database dsn) e = dsn ≡ Database.super_connection_string_to pg pg.database_name
  MayFail (exec sql) e =
      sql ≡ Database.grants (quote_identifier pg.user) (quote_identifier pg.database_name)
  MayFail migrate_up e = is_no_change e ≡ true
  MayFail _ e = ⊥

  abbrev pub IsBorne : Call → Answer → Type 0
  IsBorne c (says b) = Unit
  IsBorne c (fails e) = MayFail c e

  -- No call has failed but those that may, and a bucket is made only where the storage has just said
  -- that it is missing.
  abbrev pub IsCareful : History → Type 0
  IsCareful [] = Unit
  IsCareful ((c, a) ∷ t) = MayFollow c t × IsBorne c a × IsCareful t

  -- The last call failed with the error, given on as it is or wrapped, or as a panic; before it all
  -- was well.
  abbrev pub FailedLast : Error → History → Type 0
  FailedLast e [] = ⊥
  FailedLast e ((c, says b) ∷ t) = ⊥
  FailedLast e ((c, fails e') ∷ t) =
      MayFollow c t × ((e ≡ e') ⊎ ((e ≡ wrap e') ⊎ (e ≡ panic))) × IsCareful t

  abbrev pub Ends : {A : Type 0} → Result A × History → Type 0
  Ends (ok a, h) = IsCareful h
  Ends (err e, h) = FailedLast e h

  abbrev pub Stops : {A : Type 0} → Script A → Type 0
  Stops m = (s : Services) (h : History) → IsCareful h → Ends (m s h)

  by_result :
      {A B : Type 0} (k : A → Script B) (s : Services) (p : Result A × History)
      → Ends p
      → ((a : A) → Stops (k a))
      → Ends {A = B} (elim p.0 [ ok a ↦ k a s p.1 | err e ↦ (err e, p.1) ])
  by_result k s (ok a, h) e f = f a s h e
  by_result k s (err x, h) e f = e

  pub Stops-bind :
      {A B : Type 0} (m : Script A) (k : A → Script B)
      → Stops m
      → ((a : A) → Stops (k a))
      → Stops (m >>= k)
  Stops-bind m k hm hk s h g = by_result k s (m s h) (hm s h g) hk

  answered-Ends :
      (c : Call) (a : Answer) (h : History)
      → MayFollow c h
      → IsCareful h
      → Ends (answered a, (c, a) ∷ h)
  answered-Ends c (fails e) h m g = (m, inl refl, g)
  answered-Ends c (says b) h m g = (m, tt, g)

  pub Stops-call : (c : Call) → ((t : History) → MayFollow c t) → Stops (call c)
  unfolding call
  Stops-call c m s h g = answered-Ends c (s h c) h (m h) g

  pub Stops-try_call :
      (c : Call)
      → ((t : History) → MayFollow c t)
      → ((e : Error) → MayFail c e)
      → Stops (try_call c)
  unfolding try_call
  Stops-try_call c m f s h g = (m h, by_answer (s h c), g)
    where
      by_answer : (a : Answer) → IsBorne c a
      by_answer (fails e) = f e
      by_answer (says b) = tt

  bucket_setup-Stops : (name : Text) → Stops (Storage.bucket_setup name)
  unfolding Storage.bucket_setup Storage.make_unless call
  bucket_setup-Stops name s h g = by_answer (s h (bucket_exists name))
    where
      by_answer :
          (a : Answer)
          → Ends {A = Bool} (elim (answered a) [
            | ok b ↦ Storage.make_unless name b s ((bucket_exists name, a) ∷ h)
            | err e ↦ (err e, (bucket_exists name, a) ∷ h)
          ])
      by_answer (fails e) = (tt, inl refl, g)
      by_answer (says true) = (tt, tt, g)
      by_answer (says false) =
          let t : History = (bucket_exists name, says false) ∷ h in
          answered-Ends (make_bucket name) (s t (make_bucket name)) t (refl, refl) (tt, tt, g)

  pub Stops-then : {A B : Type 0} (m : Script A) (k : Script B) → Stops m → Stops k → Stops (m >> k)
  Stops-then m k hm hk = Stops-bind m (λ _. k) hm (λ _. hk)

  -- A connection.
  pub connection-Stops :
      (c : Call) → ((t : History) → MayFollow c t) → Stops (try_call c >>= or_panic)
  unfolding try_call
  connection-Stops c m s h g = by_answer (s h c)
    where
      by_answer : (a : Answer) → Ends {A = Bool} (or_panic (answered a) s ((c, a) ∷ h))
      by_answer (fails e) = (m h, inr (inr refl), g)
      by_answer (says b) = (m h, tt, g)

  module _ (cnf : Minio) where
    log_configuration-Stops : Stops (Storage.log_configuration cnf)
    unfolding Storage.log_configuration
    log_configuration-Stops =
        let a = try_call (get_bucket_notification cnf.temp_bucket) in
        let b = try_call (get_bucket_lifecycle cnf.temp_bucket) in
        let c = try_call (get_bucket_cors cnf.temp_bucket) in
        let d = try_call (get_bucket_cors cnf.storage_bucket) in
        Stops-then (a >> b >> c) d
          (Stops-then (a >> b) c
            (Stops-then a b
              (Stops-try_call (get_bucket_notification cnf.temp_bucket) (λ t. tt) (λ e. tt))
              (Stops-try_call (get_bucket_lifecycle cnf.temp_bucket) (λ t. tt) (λ e. tt)))
            (Stops-try_call (get_bucket_cors cnf.temp_bucket) (λ t. tt) (λ e. tt)))
          (Stops-try_call (get_bucket_cors cnf.storage_bucket) (λ t. tt) (λ e. tt))

    bind_bucket-Stops : (bucket : Text) → Stops (Storage.bind_bucket bucket)
    unfolding Storage.bind_bucket
    bind_bucket-Stops bucket = Stops-call (set_bucket_notification bucket _ _) (λ t. tt)

    set_ttl-Stops : (bucket : Text) (ttl : ℤ) → Stops (Storage.set_ttl_on_temp_bucket bucket ttl)
    unfolding Storage.set_ttl_on_temp_bucket
    set_ttl-Stops bucket ttl = Stops-call (set_bucket_lifecycle bucket _ ttl) (λ t. tt)

    client-Stops : Stops (Storage.new_minio cnf)
    unfolding Storage.new_minio
    client-Stops = connection-Stops (new_client _ _ _ _) (λ t. tt)

    setup-Stops : Stops (Storage.setup cnf)
    unfolding Storage.setup
    setup-Stops =
        let a = Storage.bucket_setup cnf.temp_bucket in
        let b = Storage.bucket_setup cnf.storage_bucket in
        let c = Storage.bind_bucket cnf.temp_bucket in
        let d = Storage.set_ttl_on_temp_bucket cnf.temp_bucket cnf.ttl in
        Stops-then (a >> b >> c >> d) (Storage.log_configuration cnf)
          (Stops-then (a >> b >> c) d
            (Stops-then (a >> b) c
              (Stops-then a b (bucket_setup-Stops cnf.temp_bucket)
                (bucket_setup-Stops cnf.storage_bucket))
              (bind_bucket-Stops cnf.temp_bucket))
            (set_ttl-Stops cnf.temp_bucket cnf.ttl))
          log_configuration-Stops

    pub storage-Stops : Stops (Storage.new_minio cnf >> Storage.setup cnf)
    storage-Stops = Stops-then (Storage.new_minio cnf) (Storage.setup cnf) client-Stops setup-Stops

  wrapped-Stops : (c : Call) → ((t : History) → MayFollow c t) → Stops (try_call c >>= or_wrapped)
  unfolding try_call
  wrapped-Stops c m s h g = by_answer (s h c)
    where
      by_answer : (a : Answer) → Ends {A = Bool} (or_wrapped (answered a) s ((c, a) ∷ h))
      by_answer (fails e) = (m h, inr (inl refl), g)
      by_answer (says b) = (m h, tt, g)

  declare-Stops : (q : QueueDecl) → Stops (Queues.declare q)
  unfolding Queues.declare
  declare-Stops q = by_binding q.bound_to
    where
      by_binding :
          (b : Option Text)
          → Stops (elim b [
            | none ↦ call (queue_declare q)
            | some exchange ↦
                call (exchange_declare exchange)
                >> call (queue_declare q)
                >> call (queue_bind q.name exchange)
          ])
      by_binding none = Stops-call (queue_declare q) (λ t. tt)
      by_binding (some exchange) =
          let a = call (exchange_declare exchange) in
          let b = call (queue_declare q) in
          Stops-then (a >> b) (call (queue_bind q.name exchange))
            (Stops-then a b (Stops-call (exchange_declare exchange) (λ t. tt))
              (Stops-call (queue_declare q) (λ t. tt)))
            (Stops-call (queue_bind q.name exchange) (λ t. tt))

  declare_all-Stops : (qs : List QueueDecl) → Stops (Queues.declare_all qs)
  unfolding Queues.declare_all
  declare_all-Stops [] s h g = g
  declare_all-Stops (q ∷ qs) s h g =
      Stops-then (Queues.declare q) (Queues.declare_all qs) (declare-Stops q) (declare_all-Stops qs)
        s h g

  pub queues-Stops :
      (cnf : Config) → Stops (Queues.new_rabbit_mq cnf.rabbit_mq >> Queues.setup cnf.minio)
  unfolding Queues.new_rabbit_mq Queues.setup
  queues-Stops cnf =
      let all = Queues.declare_all (Topology.setup cnf.minio.exchange_queue) in
      let conn = Queues.new_rabbit_mq cnf.rabbit_mq in
      Stops-then conn ((try_call channel >>= or_wrapped) >> all)
        (connection-Stops (dial (Queues.dial_url cnf.rabbit_mq)) (λ t. tt))
        (Stops-then (try_call channel >>= or_wrapped) all (wrapped-Stops channel (λ t. tt))
          (declare_all-Stops (Topology.setup cnf.minio.exchange_queue)))
