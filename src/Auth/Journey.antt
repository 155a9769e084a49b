-- ===== src/Auth/Journey.antt =====
-- From the sign-up to the first login: internal/app/auth/signup.go, verify.go and login.go in a
-- row, with the password and the token hashed on the way.
use ffgif.Base.{
  ℕ, ◌+◌, ◌*◌, ◌<◌, ◌≡◌, refl, ap, ◌∙◌, true, false, none, some, [], ◌∷◌, ◌++◌, arith, Text, codes,
  text_eq, text_eq_refl, find?, any, find?-append, find?-any, any-append, find?-update_where, ◌==◌,
}
use ffgif.World.{
  Db, World, ok, err, External, User, Verifier, Profile, NoOutage, known, user_not_verified,
}
use ffgif.Pkg
use ffgif.Pkg.{Config, minute}
use ffgif.Auth.Users
use ffgif.Auth.Verifiers
use ffgif.Auth.Service
use ffgif.User.Quotas
use ffgif.Auth.Signup
use ffgif.Auth.Verify.{consumed, any-of_live}

-- What package bcrypt documents: a hash accepts the password that it was made of.
abbrev pub AcceptsOwnPassword : External → Type 0
AcceptsOwnPassword x =
    (salt cost : ℕ) (pass hash : Text)
    → x.bcrypt_generate salt cost pass ≡ some hash
    → x.bcrypt_compare hash pass ≡ true

module _ (x : External) (cfg : Config) (email username fullname password hash : Text)
    (w : World) where
  abbrev uid : ℕ
  uid = Signup.new_id x cfg email username fullname password hash w

  abbrev token : Text
  token = Signup.new_token x cfg email username fullname password hash w

  abbrev row : User
  row = Signup.user_row x cfg email username fullname password hash w

  abbrev vrow : Verifier
  vrow = Signup.verifier_row x cfg email username fullname password hash w

  -- The address is new, and so are the random values and what hangs on them.
  pub record IsNewcomer : Type 0 where
    pub up : NoOutage w
    pub hashed : x.bcrypt_generate (w.uuids w.drawn) cfg.cost (password ++ cfg.pepper) ≡ some hash
    pub new_address : any (Users.has_email email) w.db.users ≡ false
    pub fits : Users.user_refused x w.db row ≡ false
    pub new_verifier : any (Verifiers.is_of uid) w.db.verifiers ≡ false
    pub new_hash : any (Verifiers.has_hash (x.sha256_hex token)) w.db.verifiers ≡ false
    pub new_profile : any (λ (p : Profile). p.user_id == uid) w.db.profiles ≡ false
    pub new_quota : any (Quotas.is_of uid) w.db.quotas ≡ false

  signup_ok :
      IsNewcomer
      → ((Service.signup x cfg email username fullname password w).0 ≡ ok uid)
        × ((Service.signup x cfg email username fullname password w).1.db
            ≡ Signup.registered x cfg email username fullname password hash w)
  unfolding Service.signup any
  signup_ok h = ground (
    arith,
    h.up w.calls,
    h.up (w.calls + 1),
    h.up (w.calls + 1 + 1),
    h.up (w.calls + 1 + 1 + 1),
    h.up (w.calls + 1 + 1 + 1 + 1),
    h.up (w.calls + 1 + 1 + 1 + 1 + 1),
    h.up (w.calls + 1 + 1 + 1 + 1 + 1 + 1),
    h.up (w.calls + 1 + 1 + 1 + 1 + 1 + 1 + 1),
    h.up (w.calls + 1 + 1 + 1 + 1 + 1 + 1 + 1 + 1),
    find?-any (Users.has_email email) w.db.users h.new_address,
    any-append (Users.has_id uid) w.db.users (row ∷ []),
  )

  -- The table `users` after the verification finds the new user by his address, verified.
  found_verified :
      find? (Users.has_email email) w.db.users ≡ none
      → find?
          (Users.has_email email)
          (consumed vrow (Signup.registered x cfg email username fullname password hash w)).users
        ≡ some (record row { is_verified = true })
  unfolding find?
  found_verified h =
      find?-update_where (Users.has_id uid) (Users.has_email email)
        (λ u. record u { is_verified = true }) (w.db.users ++ row ∷ []) row (λ u. refl)
        (find?-append (Users.has_email email) w.db.users (row ∷ []) h
          ∙ ground (arith, text_eq_refl email))
      ∙ ground arith

  found_unverified :
      find? (Users.has_email email) w.db.users ≡ none
      → find? (Users.has_email email) (w.db.users ++ row ∷ []) ≡ some row
  unfolding find?
  found_unverified h =
      find?-append (Users.has_email email) w.db.users (row ∷ []) h
      ∙ ground (arith, text_eq_refl email)

  token_live :
      (now : ℕ)
      → any (Verifiers.has_hash (x.sha256_hex token)) w.db.verifiers ≡ false
      → now < w.now + 30 * minute
      → find? (Verifiers.is_live (x.sha256_hex token) now) (w.db.verifiers ++ vrow ∷ []) ≡ some vrow
  unfolding find?
  token_live now h t = ground (
    arith,
    find?-append (Verifiers.is_live (x.sha256_hex token) now) w.db.verifiers (vrow ∷ []),
    any-of_live (x.sha256_hex token) now w.db.verifiers h,
    text_eq_refl (x.sha256_hex token),
  )

  verify_ok :
      (u : World)
      → NoOutage u
      → u.db ≡ Signup.registered x cfg email username fullname password hash w
      → u.now < w.now + 30 * minute
      → any (Verifiers.has_hash (x.sha256_hex token)) w.db.verifiers ≡ false
      → ((Service.verify x cfg token u).0 ≡ ok tt)
        × ((Service.verify x cfg token u).1.db ≡ consumed vrow u.db)
  unfolding Service.verify
  verify_ok u up same soon h = ground (
    arith,
    up u.calls,
    up (u.calls + 1),
    up (u.calls + 1 + 1),
    up (u.calls + 1 + 1 + 1),
    up (u.calls + 1 + 1 + 1 + 1),
    token_live u.now h soon,
  )

  login_ok :
      (z : World) (u : User) (jwt : Text)
      → NoOutage z
      → find? (Users.has_email email) z.db.users ≡ some u
      → u.is_verified ≡ true
      → x.bcrypt_compare u.password_hash (password ++ cfg.pepper) ≡ true
      → text_eq u.fullname [] ≡ false
      → text_eq u.role [] ≡ false
      → x.jwt_sign cfg.jwt_secret_key
          (Pkg.claims_of x cfg u.fullname (x.uuid_string u.id) u.email u.role z.now)
        ≡ some jwt
      → (Service.login x cfg email password z).0 ≡ ok (jwt, u.id)
  unfolding Service.login
  login_ok z u jwt up h v c f r s = ground (arith, up z.calls)

  login_unverified :
      (z : World) (u : User)
      → NoOutage z
      → find? (Users.has_email email) z.db.users ≡ some u
      → u.is_verified ≡ false
      → (Service.login x cfg email password z).0 ≡ err (known user_not_verified)
  unfolding Service.login
  login_unverified z u up h v = ground (arith, up z.calls)

  -- A newcomer, whose address and random values are new, whose row fits the table, and whose
  -- full name is not empty, signs up, follows the mailed link within 30 minutes, and logs in
  -- with his password: every step goes through, the login gives the signature of his claims, and
  -- before the link is followed the login is refused. bcrypt is taken to accept the password
  -- that a hash was made of, and jwt to sign. `u` and `z` are any worlds that have the tables
  -- which the sign-up and the verification left, and nothing outside fails in the calls.
  pub signup-verify-login :
      (u z : World) (jwt : Text)
      → IsNewcomer
      → AcceptsOwnPassword x
      → text_eq fullname [] ≡ false
      → NoOutage u
      → NoOutage z
      → u.db ≡ (Service.signup x cfg email username fullname password w).1.db
      → u.now < w.now + 30 * minute
      → z.db ≡ (Service.verify x cfg token u).1.db
      → x.jwt_sign cfg.jwt_secret_key
          (Pkg.claims_of x cfg fullname (x.uuid_string uid) email (codes "user") z.now)
        ≡ some jwt
      → ((Service.signup x cfg email username fullname password w).0 ≡ ok uid)
        × ((Service.login x cfg email password u).0 ≡ err (known user_not_verified))
        × ((Service.verify x cfg token u).0 ≡ ok tt)
        × ((Service.login x cfg email password z).0 ≡ ok (jwt, uid))
  unfolding text_eq
  signup-verify-login u z jwt new own named up_u up_z du soon dz signed =
      let (signed_up, tables) = signup_ok new in
      let at_u = du ∙ tables in
      let (verified, used) = verify_ok u up_u at_u soon new.new_hash in
      let absent = find?-any (Users.has_email email) w.db.users new.new_address in
      let at_z = dz ∙ used ∙ ap (consumed vrow) at_u in
      let accepts = own (w.uuids w.drawn) cfg.cost (password ++ cfg.pepper) hash new.hashed in
      (
        signed_up,
        login_unverified u row up_u
            (ap (λ (d : Db). find? (Users.has_email email) d.users) at_u ∙ found_unverified absent)
            refl,
        verified,
        login_ok z (record row { is_verified = true }) jwt up_z
            (ap (λ (d : Db). find? (Users.has_email email) d.users) at_z ∙ found_verified absent)
            refl accepts named refl signed,
      )
