-- ===== src/Handlers/Tags.antt =====
-- The entity tags of a GIF and of a profile: what one handler sends and the other compares.
use ffgif.Base.{
  ◌+◌, ◌≡◌, ap, Bool, true, false, some, [], ◌∷◌, arith, Text, text_eq, find?, text_eq_iff, length,
  length-append,
}
use ffgif.World.{World, Result, ok, External, Gif, NoOutage}
use ffgif.Gif.Repo
use ffgif.Gif.Repo.{UpdateRequest}
use ffgif.Http.Response.{Response, one_gif, reply, tagged}
use ffgif.Handlers.Request.{Context, decoded, get_user_id, precondition_failed}
use ffgif.Handlers.Users.{quoted}
use ffgif.Handlers.Gifs

longer : (s t : Text) → s ≡ t → length s ≡ length t
longer s t e = ap length e

-- The request is answered so, and no table has changed.
abbrev pub LeavesTables : Response → World → Result Response × World → Type 0
LeavesTables resp w (r, v) = (r ≡ ok resp) × (v.db ≡ w.db)

-- A text is not itself between quotes.
quoted-differs : (t : Text) → text_eq t (quoted t) ≡ false
quoted-differs t =
    ground (arith, text_eq_iff t (quoted t), longer t (quoted t), length-append t (34 ∷ []))

module _ (x : External) where
  -- The owner of a GIF who asks for it, when nothing fails, is answered with 200 and an entity
  -- tag. If he sends that tag back with a valid update, the tables being as he has seen them and
  -- nothing failing, he is answered with 412 and no table changes. The tag that is sent stands between quotes, and is compared with one that does not.
  pub update-own_tag_refused :
      (validate : UpdateRequest → Bool) (ctx : Context) (key : Text) (req : UpdateRequest) (g : Gif)
      (w v : World)
      → text_eq (get_user_id ctx) [] ≡ false
      → text_eq key [] ≡ false
      → validate req ≡ true
      → text_eq (x.uuid_string g.user_id) (get_user_id ctx) ≡ true
      → find? (Repo.has_key key) w.db.gifs ≡ some g
      → NoOutage w
      → NoOutage v
      → v.db ≡ w.db
      → ((Gifs.get_by_key x ctx key w).0
          ≡ ok (tagged (quoted (x.rfc3339_nano g.updated_at)) (reply 200 (one_gif g))))
        × LeavesTables precondition_failed v
            (Gifs.update x validate ctx key (decoded req) (quoted (x.rfc3339_nano g.updated_at)) v)
  unfolding Gifs.get_by_key Gifs.update text_eq
  update-own_tag_refused validate ctx key req g w v user named fine own there up still same =
      ground (
        arith,
        quoted-differs (x.rfc3339_nano g.updated_at),
        up w.calls,
        up (w.calls + 1),
        still v.calls,
        still (v.calls + 1),
        still (v.calls + 2),
        still (v.calls + 3),
      )
