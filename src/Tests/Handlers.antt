-- ===== src/Tests/Handlers.antt =====
-- The theorems on the handlers at concrete requests.
use ffgif.Base.{◌≡◌, refl, true, none, some, [], ◌∷◌, codes, text_eq, find?}
use ffgif.World.{ok}
use ffgif.Gif.Repo.{UpdateRequest}
use ffgif.Http.Response.{one_gif, reply, send_error, tagged}
use ffgif.Handlers.Request.{Context, decoded, internal_error, precondition_failed, get_user_id}
use ffgif.Handlers.Users.{quoted}
use ffgif.Handlers.Gifs
use ffgif.Handlers.Tags
use ffgif.Handlers.Tags.{LeavesTables}
use ffgif.Handlers.Foreign
use ffgif.Tests.Sample.{sample, claims, cat, calm}

-- The first user, who owns the GIF, and the second one.
abbrev ann_asks : Context
ann_asks = some (claims, codes "jwt")

abbrev bob_asks : Context
bob_asks = some (record claims { subject = 2 ∷ [] }, codes "jwt")

abbrev rename : UpdateRequest
rename = record { name = some (codes "tom"); status = none; persist = none; is_public = none }

update-own_tag_refused_example :
    ((Gifs.get_by_key sample ann_asks (codes "cat") calm).0
      ≡ ok (tagged (quoted (5 ∷ [])) (reply 200 (one_gif cat))))
    × LeavesTables precondition_failed calm (
        Gifs.update sample
          (λ req. true)
          ann_asks
          (codes "cat")
          (decoded rename)
          (quoted (5 ∷ []))
          calm)
unfolding find? text_eq get_user_id
update-own_tag_refused_example =
    Tags.update-own_tag_refused sample (λ req. true) ann_asks (codes "cat") rename cat calm calm
      refl refl refl refl refl (λ n. refl) (λ n. refl) refl

foreign_gif-LeavesTables_example :
    LeavesTables
      (send_error "GIF_FORBIDDEN" 403)
      calm
      (Gifs.get_by_key sample bob_asks (codes "cat") calm)
    × LeavesTables
        (send_error "GIF_FORBIDDEN" 403)
        calm
        (Gifs.get_gif_thumbnail sample bob_asks (codes "cat") calm)
    × LeavesTables
        (send_error "GIF_FORBIDDEN" 403)
        calm
        (Gifs.delete sample bob_asks (codes "cat") calm)
    × LeavesTables
        (send_error "GIF_FORBIDDEN" 403)
        calm
        (Gifs.update sample (λ req. true) bob_asks (codes "cat") (decoded rename) (codes "t") calm)
    × LeavesTables internal_error calm (Gifs.save sample bob_asks (codes "cat") calm)
unfolding find? text_eq get_user_id
foreign_gif-LeavesTables_example =
    Foreign.foreign_gif-LeavesTables sample (λ req. true) bob_asks (codes "cat") (codes "t") rename
      cat calm refl refl refl refl refl refl (λ n. refl)
