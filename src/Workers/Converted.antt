-- ===== src/Workers/Converted.antt =====
-- A conversion from its message to the answer about its state: internal/worker/converter_worker.go
-- with internal/app/media/run_conversion.go and conversion_status.go.
use ffgif.Base.{
  ℕ, ◌+◌, ◌*◌, ◌<◌, ◌≡◌, sym, subst, ap, ◌∙◌, true, false, Option, none, some, List, [], ◌∷◌, ◌++◌,
  arith, Text, codes, text_eq, text_eq_refl, any, update_where,
}
use ffgif.World.{
  Db, World, CacheEntry, Result, ok, Io, External, Error, NoOutage, VideoMessage, Gif, processing,
}
use ffgif.Pkg.{minute}
use ffgif.Cache
use ffgif.Auth.Users.{has_id}
use ffgif.Gif.Repo as GifRepo
use ffgif.Conversion.Jobs
use ffgif.Conversion.Service
use ffgif.Conversion.Service.{StatusResult, owner_key, status_key, gif_key}
use ffgif.Conversion.Run
use ffgif.Conversion.Run.{JobResult}
use ffgif.Workers.Delivery.{Settlement, acked}
use ffgif.Workers.Handle

-- Called in the world `w`, the processor makes a GIF of the message, writes no table and no cache, and
-- leaves the clock and the calls that go through as they are.
pub record Converts (processor : VideoMessage → Io JobResult) (msg : VideoMessage) (r : JobResult)
    (w : World) : Type 0 where
  pub goes_through : (processor msg w).0 ≡ ok r
  pub keeps_db : (processor msg w).1.db ≡ w.db
  pub keeps_cache : (processor msg w).1.cache ≡ w.cache
  pub keeps_now : (processor msg w).1.now ≡ w.now
  pub keeps_outage : (processor msg w).1.outage ≡ w.outage

module _ (x : External) (processor : VideoMessage → Io JobResult) (text_of : Error → Text)
    (msg : VideoMessage) (r : JobResult) (i u : ℕ) where
  -- The ids are uuids.
  pub record CanRecord : Type 0 where
    pub read_job : x.uuid_parse msg.job_id ≡ some i
    pub read_user : x.uuid_parse msg.user_id ≡ some u

  abbrev pub entry : Text → Text → ℕ → CacheEntry
  entry key value until = record { key = key; value = value; expires = some until }

  -- The row of the GIF.
  abbrev pub gif_row : ℕ → Gif
  gif_row now = record (Run.gif_of r) {
    user_id = u;
    status = codes "private";
    created_at = now;
    updated_at = now;
  }

  -- The world in which the processor starts.
  abbrev pub started : World → World
  started w = record w {
    calls = w.calls + 1 + 1;
    cache = entry (status_key msg.job_id) (codes "processing") (w.now + 10 * minute) ∷ w.cache;
    db = record w.db {
      jobs =
          update_where (Jobs.is_job i)
            (λ j. record j {
              status = processing;
              progress = 20;
              result_key = [];
              error_message = [];
              updated_at = w.now;
            })
            w.db.jobs;
    };
  }

  -- What the cache says in the end.
  abbrev pub left : World → List CacheEntry
  left w =
      entry (status_key msg.job_id) (codes "completed") (w.now + 5 * minute)
      ∷ entry (gif_key msg.job_id) r.gif_key (w.now + 5 * minute)
      ∷ entry (status_key msg.job_id) (codes "processing") (w.now + 10 * minute)
      ∷ w.cache

  abbrev pub Finishes : World → Result Settlement × World → Type 0
  Finishes w (s, v) =
      (s ≡ ok acked)
      × (v.cache ≡ left w)
      × (v.now ≡ w.now)
      × (v.db.gifs ≡ w.db.gifs ++ gif_row w.now ∷ [])

  -- The end of a step: it succeeds, and leaves the clock and the calls that go through.
  abbrev Goes : World → List CacheEntry → List Gif → Result (Unit {0}) × World → Type 0
  Goes w cache gifs (s, v) =
      (s ≡ ok tt)
      × (v.cache ≡ cache)
      × (v.db.gifs ≡ gifs)
      × (v.db.users ≡ w.db.users)
      × (v.now ≡ w.now)
      × (v.outage ≡ w.outage)

  complete-Goes :
      (w : World)
      → NoOutage w
      → Goes w
          (entry (status_key msg.job_id) (codes "completed") (w.now + 5 * minute)
            ∷ entry (gif_key msg.job_id) r.gif_key (w.now + 5 * minute)
            ∷ w.cache)
          w.db.gifs
          (Run.complete x msg r w)
  unfolding Run.complete
  complete-Goes w up = ground (arith, up w.calls, up (w.calls + 1), up (w.calls + 1 + 1))

  -- The user is known, and the key of the GIF is new.
  abbrev pub HasPlace : World → Type 0
  HasPlace w =
      (any (has_id u) w.db.users ≡ true) × (any (GifRepo.has_key r.gif_key) w.db.gifs ≡ false)

  record_gif-Goes :
      (w : World)
      → CanRecord
      → HasPlace w
      → NoOutage w
      → Goes w w.cache (w.db.gifs ++ gif_row w.now ∷ []) (Run.record_gif x msg r w)
  unfolding Run.record_gif
  record_gif-Goes w can place up =
      ground (arith, can.read_user, place, up w.calls, up (w.calls + 1))

  NoOutage-same : (v w : World) → v.outage ≡ w.outage → NoOutage w → NoOutage v
  NoOutage-same v w e up = subst (λ (o : ℕ → Option ℕ). (n : ℕ) → o n ≡ none) (sym e) up

  after_processing-Goes :
      (w : World)
      → CanRecord
      → HasPlace w
      → NoOutage w
      → Goes w
          (entry (status_key msg.job_id) (codes "completed") (w.now + 5 * minute)
            ∷ entry (gif_key msg.job_id) r.gif_key (w.now + 5 * minute)
            ∷ w.cache)
          (w.db.gifs ++ gif_row w.now ∷ [])
          (Run.after_processing x processor text_of msg (ok r) w)
  unfolding Run.after_processing
  after_processing-Goes w can place up =
      let v : World = (Run.complete x msg r w).1 in
      let c = complete-Goes w up in
      let there : HasPlace v = (
        ap (λ us. any (has_id u) us) c.3 ∙ place.0,
        ap (λ gs. any (GifRepo.has_key r.gif_key) gs) c.2 ∙ place.1,
      ) in
      ground (arith, c, record_gif-Goes v can there (NoOutage-same v w c.5 up))

  -- What stands before the processor: the state of the job.
  unfolded_lem :
      (w : World)
      → CanRecord
      → (processor msg (started w)).0 ≡ ok r
      → NoOutage w
      → Run.process x processor text_of msg w
        ≡ Run.after_processing x processor text_of msg (ok r) (processor msg (started w)).1
  unfolding Run.process
  unfolded_lem w can made up = ground (arith, can.read_job, made, up w.calls, up (w.calls + 1))

  process-Goes :
      (w : World)
      → CanRecord
      → Converts processor msg r (started w)
      → HasPlace w
      → NoOutage w
      → Goes w (left w) (w.db.gifs ++ gif_row w.now ∷ []) (Run.process x processor text_of msg w)
  process-Goes w can p place up =
      let v : World = (processor msg (started w)).1 in
      let db = p.keeps_db in
      let there : HasPlace v = (
        ap (λ (d : Db). any (has_id u) d.users) db ∙ place.0,
        ap (λ (d : Db). any (GifRepo.has_key r.gif_key) d.gifs) db ∙ place.1,
      ) in
      let still = NoOutage-same v w (p.keeps_outage) up in
      rw (unfolded_lem w can p.goes_through up) (
        ground (
          arith,
          after_processing-Goes v can there still,
          db,
          p.keeps_cache,
          p.keeps_now,
          p.keeps_outage,
        ))

  handle_video-Finishes :
      (w : World)
      → CanRecord
      → Converts processor msg r (started w)
      → HasPlace w
      → NoOutage w
      → Finishes w (Handle.handle_video x processor text_of (some msg) w)
  unfolding Handle.handle_video
  handle_video-Finishes w can p place up =
      let v : World = (Run.process x processor text_of msg w).1 in
      let goes = process-Goes w can p place up in
      ground (arith, goes, NoOutage-same v w goes.5 up v.calls)

  status_lem :
      (owner : Text) (w v : World)
      → NoOutage v
      → v.cache ≡ left w
      → Cache.lookup (owner_key msg.job_id) v.now w.cache ≡ some owner
      → v.now < w.now + 5 * minute
      → (Service.conversion_status x owner msg.job_id v).0
        ≡ ok (record {
          job_id = msg.job_id;
          status = codes "completed";
          gif_id = r.gif_key;
          progress = 0;
          updated_at = 0;
        })
  unfolding Service.conversion_status Cache.lookup text_eq
  status_lem owner w v up cached mine soon = ground (
    arith,
    up v.calls,
    up (v.calls + 1),
    up (v.calls + 1 + 1),
    text_eq_refl owner,
    text_eq_refl (status_key msg.job_id),
    text_eq_refl (gif_key msg.job_id),
  )

  -- A message for a conversion of a known user that the processor carries out when the worker calls
  -- it, writing no table and no cache and giving a GIF with a new key, is acknowledged if nothing fails; it has added the row of the GIF, private and the
  -- user's own, to the table; and whom the cache names as the owner of the job is told "completed"
  -- and given the key of the GIF if he asks within five minutes and nothing fails. `v` is any world
  -- with the cache that the worker left, and the entry on the owner is still alive in it.
  pub converted-status_completed :
      (owner : Text) (w v : World)
      → CanRecord
      → Converts processor msg r (started w)
      → HasPlace w
      → NoOutage w
      → NoOutage v
      → v.cache ≡ (Handle.handle_video x processor text_of (some msg) w).1.cache
      → Cache.lookup (owner_key msg.job_id) v.now w.cache ≡ some owner
      → v.now < w.now + 5 * minute
      → ((Handle.handle_video x processor text_of (some msg) w).0 ≡ ok acked)
        × ((Handle.handle_video x processor text_of (some msg) w).1.db.gifs
            ≡ w.db.gifs ++ gif_row w.now ∷ [])
        × ((Service.conversion_status x owner msg.job_id v).0
            ≡ ok (record {
              job_id = msg.job_id;
              status = codes "completed";
              gif_id = r.gif_key;
              progress = 0;
              updated_at = 0;
            }))
  converted-status_completed owner w v can p place up still cached mine soon =
      let f = handle_video-Finishes w can p place up in
      (f.0, f.3, status_lem owner w v still (cached ∙ f.1) mine soon)
