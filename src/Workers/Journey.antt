-- ===== src/Workers/Journey.antt =====
-- An upload from the notification of the storage to the answer about its status:
-- internal/worker/upload_worker.go with internal/app/media/status.go, by the cache and the table
-- last_upload.
use ffgif.Base.{
  ℕ, ◌+◌, ◌*◌, ◌<◌, ◌≡◌, refl, ap, ◌∙◌, true, false, some, List, [], ◌∷◌, arith, Text, codes,
  text_eq, text_eq_iff, any, find?, update_where, find?-any, find?-append,
}
use ffgif.Base.Int.{ℤ, pos, leb_ℤ}
use ffgif.Base.Parse.{parse_int}
use ffgif.World.{Db, World, CacheEntry, LastUpload, Result, ok, Io, External, NoOutage}
use ffgif.Pkg.{minute}
use ffgif.Auth.Users.{has_id}
use ffgif.Uploads.LastVideos
use ffgif.Uploads.Service
use ffgif.Uploads.Service.{PreProcessed}
use ffgif.Workers.Delivery.{Settlement, acked}
use ffgif.Workers.Handle
use ffgif.Workers.Handle.{Notification}

-- What the processor does when it is called in the world `w`: it goes through, writes no table and no
-- cache, and leaves the clock and the calls that go through as they are.
pub record Processes (pre_process : Text → Io PreProcessed) (key : Text) (res : PreProcessed)
    (w : World) : Type 0 where
  pub goes_through : (pre_process key w).0 ≡ ok res
  pub keeps_db : (pre_process key w).1.db ≡ w.db
  pub keeps_cache : (pre_process key w).1.cache ≡ w.cache
  pub keeps_now : (pre_process key w).1.now ≡ w.now
  pub keeps_outage : (pre_process key w).1.outage ≡ w.outage

find?-replace :
    (row : LastUpload) (ls : List LastUpload)
    → any (LastVideos.is_of row.user_id) ls ≡ true
    → find?
        (LastVideos.is_of row.user_id)
        (update_where (LastVideos.is_of row.user_id) (λ l. row) ls)
      ≡ some row
unfolding any find? update_where
find?-replace row [] h = ground arith
find?-replace row (l ∷ ls) h = ground (arith, find?-replace row ls)

find?-upsert :
    (row : LastUpload) (ls : List LastUpload)
    → find? (LastVideos.is_of row.user_id) (LastVideos.upsert row ls) ≡ some row
unfolding LastVideos.upsert find?
find?-upsert row ls = ground (
  arith,
  find?-replace row ls,
  find?-any (LastVideos.is_of row.user_id) ls,
  find?-append (LastVideos.is_of row.user_id) ls (row ∷ []),
)

module _ (x : External) (pre_process : Text → Io PreProcessed) (max_upload_bytes : ℕ)
    (key user : Text) (u : ℕ) (res : PreProcessed) (size : ℤ) where
  -- An upload of the user `u` that the processor takes, within the bound on its size.
  pub record Fits : Type 0 where
    pub named : text_eq key [] ≡ false
    pub user_named : text_eq user [] ≡ false
    pub keyed : Service.seperate_user_id key ≡ user
    pub own : Service.is_foreign key user ≡ false
    pub read : x.uuid_parse user ≡ some u
    pub sized : parse_int 64 res.size ≡ some size
    pub within : leb_ℤ size (pos max_upload_bytes) ≡ true

  -- The row of the upload.
  abbrev pub upload_row : ℕ → LastUpload
  upload_row now = record {
    user_id = u;
    file_key = res.video_key;
    filename = [];
    content_type = res.content_type;
    size_bytes = some size;
    thumbnail_url = some res.thumbnail_key;
    uploaded_at = now;
    updated_at = now;
  }

  abbrev pub Saves : World → Result (Unit {0}) × World → Type 0
  Saves w (r, v) =
      (r ≡ ok tt)
      × (v.db
          ≡ record w.db { last_uploads = LastVideos.upsert (upload_row w.now) w.db.last_uploads })
      × (v.cache ≡ w.cache)
      × (v.now ≡ w.now)
      × (v.outage ≡ w.outage)

  saves_lem :
      (w : World)
      → Fits
      → Processes pre_process key res w
      → any (has_id u) w.db.users ≡ true
      → NoOutage w
      → Saves w (Service.process_and_save x pre_process max_upload_bytes key w)
  unfolding Service.process_and_save text_eq
  saves_lem w fits goes there up = ground (
    arith,
    fits.named,
    fits.user_named,
    fits.keyed,
    fits.own,
    fits.read,
    fits.sized,
    fits.within,
    goes.goes_through,
    goes.keeps_db,
    goes.keeps_cache,
    goes.keeps_now,
    goes.keeps_outage,
    up (pre_process key w).1.calls,
  )

  abbrev pub entry : ℕ → Text → CacheEntry
  entry now value = record {
    key = Service.lookup_key key;
    value = value;
    expires = some (now + 5 * minute);
  }

  -- The notification is acknowledged, the row of the upload is in the table, and the cache says
  -- "ok".
  abbrev pub Settles : World → Result Settlement × World → Type 0
  Settles w (r, v) =
      (r ≡ ok acked)
      × (v.db
          ≡ record w.db { last_uploads = LastVideos.upsert (upload_row w.now) w.db.last_uploads })
      × (v.cache ≡ entry w.now (codes "ok") ∷ entry w.now (codes "processing") ∷ w.cache)
      × (v.now ≡ w.now)

  -- The world in which the processor starts.
  abbrev pub marked : World → World
  marked w = record w { cache = entry w.now (codes "processing") ∷ w.cache; calls = w.calls + 1 }

  handle_upload-Settles :
      (w : World)
      → Fits
      → Processes pre_process key res (marked w)
      → any (has_id u) w.db.users ≡ true
      → NoOutage w
      → Settles w (Handle.handle_upload x pre_process max_upload_bytes key w)
  unfolding Handle.handle_upload
  handle_upload-Settles w fits goes there up =
      let v : World = (Service.process_and_save x pre_process max_upload_bytes key (marked w)).1 in
      ground
        (arith, up w.calls, saves_lem (marked w) fits goes there up, up v.calls, up (v.calls + 1))

  status_lem :
      (row : LastUpload) (ls : List LastUpload) (es : List CacheEntry) (now : ℕ) (v : World)
      → Fits
      → NoOutage v
      → row.user_id ≡ u
      → v.db.last_uploads ≡ LastVideos.upsert row ls
      → v.cache ≡ entry now (codes "ok") ∷ es
      → v.now < now + 5 * minute
      → (Service.status x user key v).0 ≡ ok (row.file_key, codes "ok")
  unfolding Service.status text_eq
  status_lem row ls es now v fits up who table cached alive = ground (
    arith,
    fits.own,
    fits.read,
    up v.calls,
    up (v.calls + 1),
    find?-upsert row ls,
    text_eq_iff (Service.lookup_key key) (Service.lookup_key key),
  )

  handled :
      (n : Notification) (w : World)
      → Fits
      → Processes pre_process key res (marked w)
      → Handle.key_of (some n) ≡ some key
      → any (has_id u) w.db.users ≡ true
      → NoOutage w
      → Settles w (Handle.handle_notification x pre_process max_upload_bytes (some n) w)
  unfolding Handle.handle_notification
  handled n w fits goes about there up =
      rw (Handle.handle_notification, about) (handle_upload-Settles w fits goes there up)

  -- A notification of the storage about the upload of a known user, which the processor takes when
  -- the handler calls it, writing no table and no cache, and whose size is within the bound, is
  -- acknowledged if nothing fails, and the user who asks for
  -- the status of the upload within five minutes is told "ok" and given the key of the processed
  -- video. `v` is any world with the tables and the cache that the worker left.
  pub notified-status_ok :
      (n : Notification) (w v : World)
      → Fits
      → Processes pre_process key res (marked w)
      → Handle.key_of (some n) ≡ some key
      → any (has_id u) w.db.users ≡ true
      → NoOutage w
      → NoOutage v
      → v.db ≡ (Handle.handle_notification x pre_process max_upload_bytes (some n) w).1.db
      → v.cache ≡ (Handle.handle_notification x pre_process max_upload_bytes (some n) w).1.cache
      → v.now < w.now + 5 * minute
      → ((Handle.handle_notification x pre_process max_upload_bytes (some n) w).0 ≡ ok acked)
        × ((Service.status x user key v).0 ≡ ok (res.video_key, codes "ok"))
  unfolding Handle.handle_notification
  notified-status_ok n w v fits goes about there up still tables cached soon =
      let (done, db, cache, now) = handled n w fits goes about there up in
      (
        done,
        status_lem (upload_row w.now) w.db.last_uploads _ w.now v fits still refl
            (ap (λ (d : Db). d.last_uploads) (tables ∙ db)) (cached ∙ cache) soon,
      )
