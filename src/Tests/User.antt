-- ===== src/Tests/User.antt =====
-- The theorems on the user service at concrete worlds.
use ffgif.Base.{refl, none, some, [], ◌∷◌, Text, codes, find?}
use ffgif.World.{World, Profile}
use ffgif.User.Profiles.{ProfileUpdateRequest}
use ffgif.User.Service
use ffgif.User.Erasure
use ffgif.User.Changes
use ffgif.User.Limits
use ffgif.Auth.Service as AuthService
use ffgif.Tests.Sample.{sample, config, ann, tables, calm}

abbrev ann_id : Text
ann_id = 1 ∷ []

abbrev picture : Profile
picture = record { id = 3; user_id = 1; profile_pic = []; created_at = 0; updated_at = 0 }

abbrev with_picture : World
with_picture = record calm { db = record tables { profiles = picture ∷ [] } }

abbrev request : ProfileUpdateRequest
request = record { profile_pic = some (codes "p.jpg"); username = none; fullname = none }

change_password-Changes_example :
    Changes.Changes sample config ann
      (codes "pw")
      (codes "new")
      (codes "new")
      (100 ∷ codes "newpep")
      calm
      (Service.change_password sample config ann_id (codes "pw") (codes "new") (codes "new") calm)
unfolding find?
change_password-Changes_example =
    Changes.change_password-Changes sample config ann_id (codes "pw") (codes "new") (codes "new")
      (100 ∷ codes "newpep") ann calm refl refl refl

Reach-AreWithin_example :
    Limits.AreWithin
      (AuthService.signup sample config (codes "n@x") (codes "n") (codes "N") (codes "pw") calm).1
Reach-AreWithin_example =
    Limits.Reach-AreWithin sample config calm
      (AuthService.signup sample config (codes "n@x") (codes "n") (codes "N") (codes "pw") calm).1
      (Limits.next Limits.here
        (Limits.signup (codes "n@x") (codes "n") (codes "N") (codes "pw") refl))
      tt
