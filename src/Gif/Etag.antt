-- ===== src/Gif/Etag.antt =====
-- `Update` takes the time of the last update as a tag and compares it under the lock of the row:
-- internal/app/media/update.go.
use ffgif.Base.{
  ◌+◌, ◌≡◌, ap, ◌∙◌, refl, true, false, some, arith, Text, text_eq, find?, update_where,
  find?-update_where, find?-sound,
}
use ffgif.World.{Db, World, Result, ok, err, External, Gif, NoOutage, known, etag_validation_failed}
use ffgif.Gif.Repo
use ffgif.Gif.Repo.{UpdateRequest}
use ffgif.Gif.Service

-- The tables after an update of the GIF.
abbrev pub with_update : Text → UpdateRequest → World → Db
with_update key req w = record w.db {
  gifs = update_where (Repo.has_key key) (Repo.updated req w.now) w.db.gifs;
}

module _ (x : External) where
  -- The outcomes of an update by the owner of the row `g`, by its result.
  abbrev pub Updates : Text → Text → UpdateRequest → Gif → World → Result Gif × World → Type 0
  Updates key stamp req g w (ok g', w') =
      (text_eq (x.rfc3339_nano g.updated_at) stamp ≡ true)
      × (g' ≡ Repo.updated req w.now g)
      × (w'.db ≡ with_update key req w)
  Updates key stamp req g w (err e, w') = w'.db ≡ w.db

  -- Under any outage, an `Update` by the owner of a GIF that goes through was given the tag of
  -- the row that it found, has written the row that it returns, and has changed no other row; one
  -- that fails has changed no table.
  pub update-Updates :
      (user key stamp : Text) (req : UpdateRequest) (g : Gif) (w : World)
      → find? (Repo.has_key key) w.db.gifs ≡ some g
      → text_eq (x.uuid_string g.user_id) user ≡ true
      → Updates key stamp req g w (Service.update x user key req stamp w)
  unfolding Service.update
  update-Updates user key stamp req g w h own = ground arith

  accepted_lem :
      (key stamp : Text) (req : UpdateRequest) (g g' : Gif) (w : World) (r : Result Gif)
      (w' : World)
      → Updates key stamp req g w (r, w')
      → r ≡ ok g'
      → w'.db ≡ with_update key req w
  accepted_lem key stamp req g g' w (ok a) w' h e = h.2
  accepted_lem key stamp req g g' w (err a) w' h e = cc

  outdated_lem :
      (user key stamp : Text) (req : UpdateRequest) (g : Gif) (v : World)
      → NoOutage v
      → find? (Repo.has_key key) v.db.gifs ≡ some g
      → text_eq (x.uuid_string g.user_id) user ≡ true
      → text_eq (x.rfc3339_nano g.updated_at) stamp ≡ false
      → ((Service.update x user key req stamp v).0 ≡ err (known etag_validation_failed))
        × ((Service.update x user key req stamp v).1.db ≡ v.db)
  unfolding Service.update
  outdated_lem user key stamp req g v up h own old =
      ground (arith, up v.calls, up (v.calls + 1), up (v.calls + 1 + 1), up (v.calls + 1 + 1 + 1))

  -- No update is lost: of two that name the same tag, the second is refused with
  -- `ErrETagValidationFailed` and changes nothing, if the first has gone through and the time at
  -- which it did has another tag.
  pub update-once :
      (user key stamp : Text) (req later : UpdateRequest) (g g' : Gif) (w v : World)
      → find? (Repo.has_key key) w.db.gifs ≡ some g
      → text_eq (x.uuid_string g.user_id) user ≡ true
      → text_eq (x.rfc3339_nano w.now) stamp ≡ false
      → (Service.update x user key req stamp w).0 ≡ ok g'
      → v.db ≡ (Service.update x user key req stamp w).1.db
      → NoOutage v
      → ((Service.update x user key later stamp v).0 ≡ err (known etag_validation_failed))
        × ((Service.update x user key later stamp v).1.db ≡ v.db)
  update-once user key stamp req later g g' w v h own moved went same up =
      let done =
        accepted_lem key stamp req g g' w _ _ (update-Updates user key stamp req g w h own) went in
      outdated_lem user key stamp later (Repo.updated req w.now g) v up
        (ap (λ (d : Db). find? (Repo.has_key key) d.gifs) (same ∙ done)
          ∙ find?-update_where (Repo.has_key key) (Repo.has_key key) (Repo.updated req w.now)
              w.db.gifs g (λ a. refl) h
          ∙ ground (arith, find?-sound (Repo.has_key key) w.db.gifs g h))
        own moved
