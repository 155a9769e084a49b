-- ===== src/User/Changes.antt =====
-- What the calls of the user service write: internal/app/user/change_password.go and
-- update_profile.go.
use ffgif.Base.{ℕ, ◌≡◌, true, false, some, ◌++◌, arith, Text, find?, update_where, text_eq}
use ffgif.World.{Db, User, Profile, World, Result, ok, err, External}
use ffgif.Pkg
use ffgif.Pkg.{Config}
use ffgif.Auth.Users
use ffgif.User.Profiles
use ffgif.User.Profiles.{ProfileResponse, ProfileUpdateRequest}
use ffgif.User.Service

module _ (x : External) (cfg : Config) where
  abbrev pub with_password : ℕ → Text → World → Db
  with_password u hash w = record w.db {
    users =
        update_where (Users.has_id u) (λ o. record o { password_hash = hash; updated_at = w.now })
          w.db.users;
  }

  -- The outcomes of a change of the password, by its result.
  abbrev pub Changes : User → Text → Text → Text → Text → World → Result (Unit {0}) × World → Type 0
  Changes user current pass confirm hash w (ok _, w') =
      (Pkg.compare_hash_and_password x cfg user.password_hash current ≡ true)
      × (text_eq pass confirm ≡ true)
      × (text_eq current pass ≡ false)
      × (w'.db ≡ with_password user.id hash w)
  Changes user current pass confirm hash w (err e, w') = w'.db ≡ w.db

  -- Under any outage, and where bcrypt hashes the new password: a `ChangePassword` for a user in
  -- the table that succeeds was given his password and twice the same new one, another than the
  -- old, and has set its hash for him and changed nothing else in the tables; one that fails has
  -- changed no table.
  pub change_password-Changes :
      (id current pass confirm hash : Text) (user : User) (w : World)
      → x.uuid_parse id ≡ some user.id
      → find? (Users.has_id user.id) w.db.users ≡ some user
      → x.bcrypt_generate (w.uuids w.drawn) cfg.cost (pass ++ cfg.pepper) ≡ some hash
      → Changes user current pass confirm hash w
          (Service.change_password x cfg id current pass confirm w)
  unfolding Service.change_password
  change_password-Changes id current pass confirm hash user w h found g = ground arith

module _ (x : External) where
  abbrev pub with_profile : ℕ → ProfileUpdateRequest → World → Db
  with_profile u req w = record w.db {
    users = update_where (Users.has_id u) (Profiles.renamed req w.now) w.db.users;
    profiles = update_where (Profiles.is_of u) (Profiles.repictured req w.now) w.db.profiles;
  }

  -- The outcomes of an update of the profile, by its result.
  abbrev pub Updates :
      User → Profile → Text → ProfileUpdateRequest → World → Result ProfileResponse × World → Type 0
  Updates u p stamp req w (ok r, w') =
      (text_eq (x.rfc3339_nano u.updated_at) stamp ≡ true)
      × (r ≡ Profiles.response (Profiles.renamed req w.now u) (Profiles.repictured req w.now p))
      × (w'.db ≡ with_profile u.id req w)
  Updates u p stamp req w (err e, w') = w'.db ≡ w.db

  -- Under any outage, an `UpdateProfile` for a user in the table with a profile that goes through
  -- was given the tag of his row, has written both rows, and returns what they hold now; one that
  -- fails has changed no table.
  pub update_profile-Updates :
      (id stamp : Text) (req : ProfileUpdateRequest) (u : User) (p : Profile) (w : World)
      → x.uuid_parse id ≡ some u.id
      → find? (Users.has_id u.id) w.db.users ≡ some u
      → find? (Profiles.is_of u.id) w.db.profiles ≡ some p
      → Updates u p stamp req w (Service.update_profile x req id stamp w)
  unfolding Service.update_profile
  update_profile-Updates id stamp req u p w h found owned = ground arith
