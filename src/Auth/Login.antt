-- ===== src/Auth/Login.antt =====
-- Who can log in.
use ffgif.Base.{ℕ, ◌≡◌, true, Option, none, some, arith, Text, find?, refl}
use ffgif.World.{World, Result, ok, err, External, User, known, invalid_credential}
use ffgif.Pkg
use ffgif.Pkg.{Config}
use ffgif.Auth.Users
use ffgif.Auth.Service

module _ (x : External) (cfg : Config) (email password : Text) (w : World) where
  abbrev pub found : Option User
  found = find? (Users.has_email email) w.db.users

  -- The outcomes of a login, by the user of the address and the result.
  abbrev pub Logs : Option User → Result (Text × ℕ) × World → Type 0
  Logs (some u) (ok (token, id), w') =
      (u.is_verified ≡ true)
      × (Pkg.compare_hash_and_password x cfg u.password_hash password ≡ true)
      × (id ≡ u.id)
      × (x.jwt_sign cfg.jwt_secret_key
            (Pkg.claims_of x cfg u.fullname (x.uuid_string u.id) u.email u.role w.now)
          ≡ some token)
      × (w'.db ≡ w.db)
      × (w'.cache ≡ w.cache)
      × (w'.emails ≡ w.emails)
  Logs none (ok _, w') = ⊥
  Logs none (err e, w') = (e ≡ known invalid_credential) × (w'.db ≡ w.db)
  Logs (some u) (err e, w') = w'.db ≡ w.db

  login_with : (o : Option User) → found ≡ o → Logs o (Service.login x cfg email password w)
  unfolding Service.login
  login_with (some u) e = ground arith
  login_with none e = ground arith

  -- Under any outage, a `Login` that gives a token has found the user of the address, who is
  -- verified and whose hash accepts the password, and gives his id and the signature of his
  -- claims; a login with an unknown address fails with `ErrInvalidCredential`. No login changes a
  -- table, and one that gives a token changes neither the cache nor the mails.
  pub login-Logs : Logs found (Service.login x cfg email password w)
  login-Logs = login_with found refl
