-- ===== src/Tests/Share.antt =====
-- The theorems on shares and links at concrete worlds.
use ffgif.Base.{◌≡◌, ◌*◌, ◌++◌, refl, [], ◌∷◌, arith, Text, codes, any, text_eq, find?}
use ffgif.World.{EmailMessage, World, ok, err, known, no_rows, share_not_found}
use ffgif.Pkg.{minute}
use ffgif.Gif.Service as GifService
use ffgif.Gif.Ownership.{IsRefused}
use ffgif.Share.Service
use ffgif.Share.Grant
use ffgif.Share.Link
use ffgif.Tests.Sample.{sample, cat, bob, calm}

abbrev ann_id : Text
ann_id = 1 ∷ []

abbrev bob_id : Text
bob_id = 2 ∷ []

abbrev key : Text
key = codes "cat"

sample-PrintsUuid : Grant.PrintsUuid sample
unfolding text_eq
sample-PrintsUuid = record { read_back = λ n. refl; not_empty = λ n. refl }

abbrev shared : World
shared = (Service.create sample ann_id key (codes "b@x") 3000 calm).1

abbrev expired : World
expired = record shared { now = 4000 }

create-opens_until_example :
    ((Service.create sample ann_id key (codes "b@x") 3000 calm).0 ≡ ok tt)
    × ((GifService.download sample bob_id key shared).0
        ≡ ok (sample.presigned_get (codes "attachment; filename=" ++ key) key (5 * minute)))
    × IsRefused expired (GifService.download sample bob_id key expired)
unfolding any find? text_eq Service.create
create-opens_until_example =
    Grant.create-opens_until sample sample-PrintsUuid key (codes "b@x") cat bob 3000 calm shared
      expired
      (record {
        up = λ n. refl;
        ahead = omega arith;
        owned = refl;
        known_gif = refl;
        known_owner = refl;
        target = refl;
        known_target = refl;
        first = refl;
        fresh = refl;
      })
      (λ n. refl) refl refl (omega arith) (omega arith) refl

abbrev revoked : World
revoked = (Service.delete sample ann_id key bob_id shared).1

delete-revokes_example : IsRefused revoked (GifService.download sample bob_id key revoked)
unfolding any find? text_eq Service.create Service.delete
delete-revokes_example =
    Grant.delete-revokes sample sample-PrintsUuid ann_id key bob_id 2 cat shared revoked refl refl
      refl refl refl

abbrev linked : World
linked = (Service.create_by_token sample ann_id key (codes "b@x") 3000 calm).1

abbrev invitation : EmailMessage
invitation = record { to = codes "b@x"; name = codes "share"; token = 100 ∷ [] }

mailed_link-refused_example :
    (invitation.token ≡ 100 ∷ [])
    × ((Service.get_by_token sample (100 ∷ []) linked).0 ≡ err (known no_rows))
    × ((Service.download_by_token sample (100 ∷ []) linked).0 ≡ err (known share_not_found))
    × ((Service.download_by_token sample (100 ∷ []) linked).1.db ≡ linked.db)
unfolding any find? text_eq Service.create_by_token
mailed_link-refused_example =
    Link.mailed_link-refused sample ann_id key (codes "b@x") 3000 (100 ∷ []) invitation calm linked
      refl refl refl refl refl refl
