-- ===== src/Handlers/Foreign.antt =====
-- What the handlers of the media routes answer for a GIF of another user.
use ffgif.Base.{◌≡◌, refl, Bool, true, false, some, [], arith, Text, codes, text_eq, find?}
use ffgif.World.{World, External, Gif, NoOutage}
use ffgif.Gif.Repo
use ffgif.Gif.Repo.{UpdateRequest}
use ffgif.Http.Response.{send_error}
use ffgif.Handlers.Request.{Context, decoded, get_user_id, internal_error}
use ffgif.Handlers.Gifs
use ffgif.Handlers.Tags.{LeavesTables}

module _ (x : External) where
  -- A signed in user who asks for the GIF of another, for its thumbnail, its deletion or, with a
  -- valid body and some tag, its update is answered with 403 if nothing fails, and no table
  -- changes; one who wants to save it is answered with 500.
  pub foreign_gif-LeavesTables :
      (validate : UpdateRequest → Bool) (ctx : Context) (key tag : Text) (req : UpdateRequest)
      (g : Gif) (w : World)
      → text_eq (get_user_id ctx) [] ≡ false
      → text_eq key [] ≡ false
      → text_eq tag [] ≡ false
      → validate req ≡ true
      → find? (Repo.has_key key) w.db.gifs ≡ some g
      → text_eq (x.uuid_string g.user_id) (get_user_id ctx) ≡ false
      → NoOutage w
      → LeavesTables (send_error "GIF_FORBIDDEN" 403) w (Gifs.get_by_key x ctx key w)
        × LeavesTables (send_error "GIF_FORBIDDEN" 403) w (Gifs.get_gif_thumbnail x ctx key w)
        × LeavesTables (send_error "GIF_FORBIDDEN" 403) w (Gifs.delete x ctx key w)
        × LeavesTables
            (send_error "GIF_FORBIDDEN" 403)
            w
            (Gifs.update x validate ctx key (decoded req) tag w)
        × LeavesTables internal_error w (Gifs.save x ctx key w)
  unfolding Gifs.get_by_key Gifs.get_gif_thumbnail Gifs.delete Gifs.update Gifs.save text_eq
  foreign_gif-LeavesTables validate ctx key tag req g w user named tagged fine there foreign up =
      ground (arith, up w.calls)

  -- Whoever asks for the GIFs of a user by his id is answered as that user himself is when he asks
  -- for his own, by the same status, page and limit: also with those that are not public.
  pub get_gifs_by_user_id-own :
      (asker owner : Context) (status page limit : Text) (w : World)
      → text_eq (get_user_id owner) [] ≡ false
      → text_eq (get_user_id owner) (codes "me") ≡ false
      → Gifs.get_gifs_by_user_id x asker (get_user_id owner) status page limit w
        ≡ Gifs.get_gifs x owner status page limit w
  unfolding Gifs.get_gifs_by_user_id Gifs.get_gifs
  get_gifs_by_user_id-own asker owner status page limit w user named = rw user (rw named refl)
