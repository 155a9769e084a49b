-- ===== src/Auth/Signup.antt =====
-- What a sign-up leaves in the tables, on every branch and under every outage.
use ffgif.Base.{
  subst, ℕ, ◌+◌, ◌*◌, ◌≡◌, ◌⊎◌, true, false, some, [], ◌∷◌, ◌++◌, arith, Text, codes, any,
}
use ffgif.World.{
  bind_lem, EmailMessage, Db, World, Result, ok, err, External, errors_is, message_queue_failed,
  User, Verifier, Profile, Quota,
}
use ffgif.Pkg.{Config, minute}
use ffgif.Auth.Users
use ffgif.Auth.Service
use ffgif.Auth.Service.{new_user, new_verifier, new_profile, new_quota, email_of}

module _ (x : External) (cfg : Config) (email username fullname password hash : Text)
    (w : World) where
  -- The id of the new user and the token that is mailed: the second and third value drawn.
  abbrev pub new_id : ℕ
  new_id = w.uuids (w.drawn + 1)

  abbrev pub new_token : Text
  new_token = x.uuid_string (w.uuids (w.drawn + 1 + 1))

  abbrev pub user_row : User
  user_row = record (new_user email username fullname hash) {
    id = new_id;
    created_at = w.now;
    updated_at = w.now;
  }

  abbrev pub verifier_row : Verifier
  verifier_row = record (new_verifier new_id (x.sha256_hex new_token)) {
    id = w.serial;
    created_at = w.now;
    expire_at = w.now + 30 * minute;
  }

  abbrev pub profile_row : Profile
  profile_row = record (new_profile new_id) {
    id = w.serial + 1;
    created_at = w.now;
    updated_at = w.now;
  }

  abbrev pub quota_row : Quota
  quota_row = record {
    id = w.serial + 1 + 1;
    user_id = new_id;
    used_bytes = 0;
    total_bytes = 1_073_741_824;
    gif_count = 0;
    gif_limit = 100;
  }

  -- The tables with the account added.
  abbrev pub registered : Db
  registered = record w.db {
    users = w.db.users ++ user_row ∷ [];
    verifiers = w.db.verifiers ++ verifier_row ∷ [];
    profiles = w.db.profiles ++ profile_row ∷ [];
    quotas = w.db.quotas ++ quota_row ∷ [];
  }

  -- The outcomes of a sign-up, by its result.
  abbrev pub Registers : Result ℕ × World → Type 0
  Registers (ok id, w') =
      (id ≡ new_id)
      × (w'.db ≡ registered)
      × (w'.emails ≡ w.emails ++ email_of email (codes "signup") new_token ∷ [])
      × (any (Users.has_email email) w.db.users ≡ false)
  Registers (err e, w') =
      (w'.emails ≡ w.emails)
      × ((w'.db ≡ w.db) ⊎ ((w'.db ≡ registered) × (errors_is e message_queue_failed ≡ true)))

  -- The world in which the rows that refer to the user are written.
  abbrev has_user : World
  has_user = record w {
    db = record w.db { users = w.db.users ++ user_row ∷ [] };
    calls = w.calls + 1 + 1;
    drawn = w.drawn + 1 + 1 + 1;
  }

  -- The outcomes of the last steps of the transaction, and of the whole of it.
  abbrev Rows : Result (ℕ × EmailMessage) × World → Type 0
  Rows (ok (id, msg), w') =
      (id ≡ new_id)
      × (msg ≡ email_of email (codes "signup") new_token)
      × (w'.db ≡ registered)
      × (w'.emails ≡ w.emails)
  Rows (err e, w') = w'.emails ≡ w.emails

  abbrev Transacts : Result (ℕ × EmailMessage) × World → Type 0
  Transacts (ok (id, msg), w') =
      (id ≡ new_id)
      × (msg ≡ email_of email (codes "signup") new_token)
      × (w'.db ≡ registered)
      × (w'.emails ≡ w.emails)
      × (any (Users.has_email email) w.db.users ≡ false)
  Transacts (err e, w') = w'.emails ≡ w.emails

  signup_rows-Rows :
      Rows (Service.signup_rows x cfg email new_id (new_token, x.sha256_hex new_token) has_user)
  unfolding Service.signup_rows
  signup_rows-Rows = ground arith

  abbrev Adds : Result (ℕ × (Text × Text)) × World → Type 0
  Adds (ok r, w') =
      (r ≡ (new_id, (new_token, x.sha256_hex new_token)))
      × (w' ≡ has_user)
      × (any (Users.has_email email) w.db.users ≡ false)
  Adds (err e, w') = w'.emails ≡ w.emails

  signup_user-Adds :
      x.bcrypt_generate (w.uuids w.drawn) cfg.cost (password ++ cfg.pepper) ≡ some hash
      → Adds (Service.signup_user x cfg email username fullname password w)
  unfolding Service.signup_user Users.user_refused
  signup_user-Adds h = ground arith

  with_address :
      (p : Result (ℕ × EmailMessage) × World)
      → any (Users.has_email email) w.db.users ≡ false
      → Rows p
      → Transacts p
  with_address (ok r, w') n h = (h.0, h.1, h.2, h.3, n)
  with_address (err e, w') n h = h

  signup_tx-Transacts :
      x.bcrypt_generate (w.uuids w.drawn) cfg.cost (password ++ cfg.pepper) ≡ some hash
      → Transacts (Service.signup_tx x cfg email username fullname password w)
  unfolding Service.signup_tx
  signup_tx-Transacts h =
      let added = signup_user-Adds h in
      bind_lem (Service.signup_user x cfg email username fullname password)
        (λ (r : ℕ × (Text × Text)). Service.signup_rows x cfg email r.0 r.1) w Transacts
        (λ r v e.
          let (same, at, new) : Adds (ok r, v) = subst Adds e added in
          rw (same, at) (with_address _ new signup_rows-Rows))
        (λ d v e. subst Adds e added)

module _ (x : External) (cfg : Config) (email username fullname password hash : Text)
    (w : World) where
  -- Where bcrypt hashes the password, and under any outage: a `Signup` that succeeds has added
  -- the unverified user with this hash, his verifier, profile and quota, and no other row, has
  -- mailed the token whose hash the verifier holds, and the address was new; one that fails has
  -- mailed nothing and changed no table, unless it fails in the queue: then the account is there
  -- with no mail.
  pub signup-Registers :
      x.bcrypt_generate (w.uuids w.drawn) cfg.cost (password ++ cfg.pepper) ≡ some hash
      → Registers x cfg email username fullname password hash w
          (Service.signup x cfg email username fullname password w)
  unfolding Service.signup
  signup-Registers h = ground (
    arith,
    signup_tx-Transacts x cfg email username fullname password hash
        (record w { calls = w.calls + 1 }) h,
  )
