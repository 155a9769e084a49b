-- ===== src/Gif/Download.antt =====
-- Who gets the URL of a GIF: internal/app/media/download.go.
use ffgif.Base.{
  ℕ, ◌*◌, ◌≡◌, ◌⊎◌, inl, inr, Bool, true, false, ◌||◌, ◌++◌, [], Option, none, some, arith, Text,
  codes, text_eq, find?, update_where, Option-cases,
}
use ffgif.World.{World, Result, ok, err, External, Gif, Share}
use ffgif.Pkg.{minute}
use ffgif.Gif.Repo
use ffgif.Gif.Service
use ffgif.Share.Repo as ShareRepo

module _ (x : External) where
  -- A share gives access if its owner is that of the GIF.
  abbrev pub grants : Text → Option Share → Bool
  grants owner none = false
  grants owner (some s) = text_eq (x.uuid_string s.owner_id) owner

  -- The outcomes of a download, by its result.
  abbrev pub Downloads : Text → Text → ℕ → Gif → World → Result Text × World → Type 0
  Downloads user key u g w (ok url, w') =
      ((text_eq (x.uuid_string g.user_id) user
          || grants (x.uuid_string g.user_id)
              (find? (ShareRepo.is_live_for key u w.now) w.db.shares))
        ≡ true)
      × (url ≡ x.presigned_get (codes "attachment; filename=" ++ key) key (5 * minute))
      × (w'.db ≡ record w.db {
        gifs = update_where (Repo.has_key key) (Repo.downloaded w.now) w.db.gifs;
      })
  Downloads user key u g w (err _, w') =
      (w'.db ≡ w.db)
      ⊎ (w'.db ≡ record w.db {
        gifs = update_where (Repo.has_key key) (Repo.downloaded w.now) w.db.gifs;
      })

  -- For a GIF in the table, a user id that parses, and uuids that do not print as the empty text,
  -- under any outage: a `Download` that gives a URL was asked for by the owner or by a user for
  -- whom the owner has made a share that has not expired, gives the presigned URL of the key for
  -- five minutes, and has counted one download; one that fails has changed no table but for that
  -- count.
  pub download-Downloads :
      (user key : Text) (u : ℕ) (g : Gif) (w : World)
      → ((n : ℕ) → text_eq [] (x.uuid_string n) ≡ false)
      → find? (Repo.has_key key) w.db.gifs ≡ some g
      → x.uuid_parse user ≡ some u
      → Downloads user key u g w (Service.download x user key w)
  unfolding Service.download
  download-Downloads user key u g w printed h e =
      elim (Option-cases (find? (ShareRepo.is_live_for key u w.now) w.db.shares)) [
        | inl n ↦ ground (arith, printed g.user_id)
        | inr (s, n) ↦ ground (arith, printed g.user_id)
      ]
