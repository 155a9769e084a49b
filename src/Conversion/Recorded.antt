-- ===== src/Conversion/Recorded.antt =====
-- What the run of a conversion leaves in the tables: internal/app/media/run_conversion.go.
use ffgif.Base.{ℕ, ◌≡◌, ◌⊎◌, false, some, [], ◌∷◌, ◌++◌, arith, codes, any, update_where}
use ffgif.World.{Db, World, Result, ok, err, External, VideoMessage}
use ffgif.User.Quotas
use ffgif.Gif.Repo as GifRepo
use ffgif.Conversion.Run
use ffgif.Conversion.Run.{JobResult}

module _ (x : External) (msg : VideoMessage) (r : JobResult) (u : ℕ) (w : World) where
  -- The tables with the row of the GIF, and with the count of the quota too.
  abbrev pub with_gif : Db
  with_gif = record w.db {
    gifs =
        w.db.gifs
        ++ record (Run.gif_of r) {
          user_id = u;
          status = codes "private";
          created_at = w.now;
          updated_at = w.now;
        }
          ∷ [];
  }

  abbrev pub counted : Db
  counted = record with_gif {
    quotas = update_where (Quotas.has_room u 0 1) (Quotas.charge 0 1) w.db.quotas;
  }

  -- The outcomes of the recording, by its result.
  abbrev pub Records : Result (Unit {0}) × World → Type 0
  Records (ok _, w') =
      (w'.db ≡ counted) × (w'.cache ≡ w.cache) × (any (GifRepo.has_key r.gif_key) w.db.gifs ≡ false)
  Records (err e, w') = (w'.db ≡ w.db) ⊎ (w'.db ≡ with_gif)

  -- Under any outage, for a message whose user id parses: the end of `Process`, after a conversion,
  -- that succeeds has added the private GIF of this user, whose key was new, and counted it in his
  -- quota if there was room, and nothing else in the tables; one that fails has changed no table,
  -- or has added the GIF and not counted it.
  pub record_gif-Records : x.uuid_parse msg.user_id ≡ some u → Records (Run.record_gif x msg r w)
  unfolding Run.record_gif Run.fail_with
  record_gif-Records parsed = ground arith
