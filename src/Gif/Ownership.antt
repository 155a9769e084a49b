-- ===== src/Gif/Ownership.antt =====
-- Calls by a user who is not the owner: internal/app/media/delete.go, update.go, save.go, get_by_key.go
-- and get_gif_thumbnail.go.
use ffgif.Base.{◌≡◌, false, some, arith, Text, text_eq, find?}
use ffgif.World.{World, Result, ok, err, External, Gif}
use ffgif.Gif.Repo
use ffgif.Gif.Repo.{UpdateRequest}
use ffgif.Gif.Service

-- The call fails and leaves the tables and the stored objects as they were.
abbrev pub IsRefused : {A : Type 0} → World → Result A × World → Type 0
IsRefused w (ok _, w') = ⊥
IsRefused w (err _, w') = (w'.db ≡ w.db) × (w'.objects ≡ w.objects)

module _ (x : External) where
  -- Whatever fails outside, a user who does not own a GIF in the table can neither delete, change,
  -- save nor read it or its thumbnail, and changes no table and no stored object by trying.
  pub foreign-IsRefused :
      (user key stamp : Text) (req : UpdateRequest) (g : Gif) (w : World)
      → find? (Repo.has_key key) w.db.gifs ≡ some g
      → text_eq (x.uuid_string g.user_id) user ≡ false
      → IsRefused w (Service.delete x user key w)
        × IsRefused w (Service.update x user key req stamp w)
        × IsRefused w (Service.save x user key w)
        × IsRefused w (Service.get_by_key x user key w)
        × IsRefused w (Service.get_gif_thumbnail x user key w)
  unfolding Service.delete Service.update Service.save Service.get_by_key Service.get_gif_thumbnail
  foreign-IsRefused user key stamp req g w h foreign = ground arith
