-- ===== src/Conversion/Queued.antt =====
-- What `Convert` leaves in the queue, the cache and the table of jobs:
-- internal/app/media/convert.go.
use ffgif.Base.{ℕ, ◌+◌, ◌*◌, ◌≡◌, false, some, [], ◌∷◌, ◌++◌, arith, subst, sym, Text, codes}
use ffgif.World.{
  Io, bind_lem, draw_uuid, ◌>>=◌, World, CacheEntry, Result, ok, err, External, VideoMessage, Job,
  queued,
}
use ffgif.Pkg.{minute}
use ffgif.Conversion.Jobs
use ffgif.Conversion.Service

module _ (x : External) (user : Text) (u id : ℕ) (ask : VideoMessage) (w : World) where
  abbrev pub job : Text
  job = x.uuid_string (w.uuids w.drawn)

  abbrev pub job_row : Job
  job_row = record {
    id = id;
    user_id = u;
    type = codes "video_to_gif";
    status = queued;
    progress = 0;
    error_message = [];
    result_key = [];
    created_at = w.now;
    updated_at = w.now;
  }

  -- An entry for five minutes.
  abbrev pub entry : Text → Text → CacheEntry
  entry key value = record { key = key; value = value; expires = some (w.now + 5 * minute) }

  -- The outcomes of a request for a conversion, by its result.
  abbrev pub Queues : Result Text × World → Type 0
  Queues (ok j, w') =
      (j ≡ job)
      × (Service.is_foreign ask.key user ≡ false)
      × (w'.videos ≡ w.videos ++ Service.message_of ask user job ∷ [])
      × (w'.db ≡ record w.db { jobs = Jobs.upsert job_row w.db.jobs })
      × (w'.cache
          ≡ entry (Service.gif_key job) (codes "queued")
            ∷ entry (Service.status_key job) (codes "queued")
            ∷ entry (Service.owner_key job) user
            ∷ w.cache)
  Queues (err e, w') = (w'.videos ≡ w.videos) × (w'.db ≡ record w.db { jobs = w'.db.jobs })

  abbrev drawn_world : World
  drawn_world = record w { calls = w.calls + 1; drawn = w.drawn + 1 }

  -- The world in which the message is published.
  abbrev announced : World
  announced = record drawn_world {
    calls = w.calls + 1 + 1 + 1 + 1 + 1;
    db = record w.db { jobs = Jobs.upsert job_row w.db.jobs };
    cache =
        entry (Service.gif_key job) (codes "queued")
        ∷ entry (Service.status_key job) (codes "queued")
        ∷ entry (Service.owner_key job) user
        ∷ w.cache;
  }

  -- The rest of `Convert` after its checks.
  abbrev numbered : Io Text
  numbered = draw_uuid >>= λ n. Service.announce x user (x.uuid_string n) >>= λ _.
      Service.publish x user ask (x.uuid_string n)

  -- The outcomes of the three parts of `Convert`.
  abbrev Permits : Result (Unit {0}) × World → Type 0
  Permits (ok _, v) =
      (v ≡ record w { calls = w.calls + 1 }) × (Service.is_foreign ask.key user ≡ false)
  Permits (err e, v) = (v.videos ≡ w.videos) × (v.db ≡ w.db)

  abbrev Announces : Result (Unit {0}) × World → Type 0
  Announces (ok _, v) = v ≡ announced
  Announces (err e, v) = (v.videos ≡ w.videos) × (v.db ≡ w.db)

  abbrev Publishes : World → Result Text × World → Type 0
  Publishes v (ok j, v') =
      (j ≡ job)
      × (v'.videos ≡ v.videos ++ Service.message_of ask user job ∷ [])
      × (v'.db ≡ v.db)
      × (v'.cache ≡ v.cache)
  Publishes v (err e, v') = (v'.videos ≡ v.videos) × (v'.db ≡ record v.db { jobs = v'.db.jobs })

  publish-Publishes : (v : World) → Publishes v (Service.publish x user ask job v)
  unfolding Service.publish Service.give_up
  publish-Publishes v = ground arith

  may_convert-Permits : Permits (Service.may_convert x user ask.key w)
  unfolding Service.may_convert
  may_convert-Permits = ground arith

  announce-Announces :
      x.uuid_parse user ≡ some u
      → x.uuid_parse job ≡ some id
      → Announces (Service.announce x user job drawn_world)
  unfolding Service.announce
  announce-Announces parsed printed = ground arith

  queued_lem :
      Service.is_foreign ask.key user ≡ false
      → (p : Result Text × World) → Publishes announced p
      → Queues p
  queued_lem own (ok j, v) h = (h.0, own, h.1, h.2, h.3)
  queued_lem own (err e, v) h = h

  announced_lem :
      Service.is_foreign ask.key user ≡ false
      → x.uuid_parse user ≡ some u
      → x.uuid_parse job ≡ some id
      → Queues ((Service.announce x user job >>= λ _. Service.publish x user ask job) drawn_world)
  announced_lem own parsed printed =
      bind_lem (Service.announce x user job) (λ _. Service.publish x user ask job) drawn_world
        Queues
        (λ _ v e.
          let there : Announces (ok tt, v) =
            subst Announces e (announce-Announces parsed printed) in
          subst (λ z. Queues (Service.publish x user ask job z)) (sym there)
            (queued_lem own _ (publish-Publishes announced)))
        (λ d v e.
          let (videos, same) : Announces (err d, v) =
            subst Announces e (announce-Announces parsed printed) in
          (videos, ground arith))

  -- Under any outage, for a user id and a job id that parse: a `Convert` that gives a job was asked
  -- for no upload of another user, has put one message for this job into the queue, has added its
  -- row and no other to the tables, and has written the owner and the state of the job to the
  -- cache for five minutes; one that fails has put nothing into the queue and changed no table but
  -- the one of jobs.
  pub convert-Queues :
      x.uuid_parse user ≡ some u
      → x.uuid_parse job ≡ some id
      → Queues (Service.convert x user ask w)
  unfolding Service.convert draw_uuid
  convert-Queues parsed printed =
      bind_lem (Service.may_convert x user ask.key) (λ _. numbered) w Queues
        (λ _ v e.
          let (at, own) : Permits (ok tt, v) = subst Permits e may_convert-Permits in
          subst (λ z. Queues (numbered z)) (sym at) (announced_lem own parsed printed))
        (λ d v e.
          let (videos, same) : Permits (err d, v) = subst Permits e may_convert-Permits in
          (videos, ground arith))
