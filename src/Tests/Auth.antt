-- ===== src/Tests/Auth.antt =====
-- The theorems on accounts at concrete worlds.
use ffgif.Base.{◌≡◌, refl, false, [], ◌∷◌, arith, Text, codes, any, find?, text_eq, text_eq_refl}
use ffgif.World.{
  World, ok, err, known, join, Reseter, no_rows, invalid_token, user_not_verified,
  reseter_token_fetch_failed,
}
use ffgif.Auth.Users
use ffgif.Auth.Service
use ffgif.Auth.Signup
use ffgif.Auth.Verify
use ffgif.Auth.Journey
use ffgif.Auth.Reset
use ffgif.Tests.Sample.{sample, config, tables, calm}

abbrev email : Text
email = codes "c@x"

abbrev name : Text
name = codes "Cid"

abbrev pass : Text
pass = codes "pw"

-- The hash of the password under the first value drawn.
abbrev hash : Text
hash = 100 ∷ codes "pwpep"

signup-Registers_example :
    Signup.Registers sample config email name name pass hash calm
      (Service.signup sample config email name name pass calm)
signup-Registers_example = Signup.signup-Registers sample config email name name pass hash calm refl

-- A world in which the token of one character waits for the second user.
abbrev waiting : World
waiting = record calm {
  db = record tables {
    verifiers =
        record { id = 7; user_id = 2; token = 0 ∷ 55 ∷ []; created_at = 0; expire_at = 5000 } ∷ [];
  };
}

verify-Verifies_example :
    Verify.Verifies sample config
      (55 ∷ [])
      waiting
      (Verify.presented sample config (55 ∷ []) waiting)
      (Service.verify sample config (55 ∷ []) waiting)
verify-Verifies_example = Verify.verify-Verifies sample config (55 ∷ []) waiting

abbrev spent : World
spent = (Service.verify sample config (55 ∷ []) waiting).1

verify-once_example :
    ((Service.verify sample config (55 ∷ []) spent).0 ≡ err (known invalid_token))
    × ((Service.verify sample config (55 ∷ []) spent).1.db ≡ spent.db)
unfolding Service.verify any find? text_eq
verify-once_example =
    Verify.verify-once sample config (55 ∷ []) waiting spent (refl, tt) refl refl refl

accepts_own : Journey.AcceptsOwnPassword sample
accepts_own salt cost password h e = ground (arith, text_eq_refl password)

-- The world after the sign-up, and the one after the verification.
abbrev signed_up : World
signed_up = (Service.signup sample config email name name pass calm).1

abbrev verified : World
verified = (Service.verify sample config (102 ∷ []) signed_up).1

signup-verify-login_example :
    ((Service.signup sample config email name name pass calm).0 ≡ ok 101)
    × ((Service.login sample config email pass signed_up).0 ≡ err (known user_not_verified))
    × ((Service.verify sample config (102 ∷ []) signed_up).0 ≡ ok tt)
    × ((Service.login sample config email pass verified).0 ≡ ok (codes "jwt", 101))
unfolding Service.signup Service.verify any Users.user_refused text_eq find?
signup-verify-login_example =
    Journey.signup-verify-login sample config email name name pass hash calm signed_up verified
      (codes "jwt")
      (record {
        up = λ n. refl;
        hashed = refl;
        new_address = refl;
        fits = refl;
        new_verifier = refl;
        new_hash = refl;
        new_profile = refl;
        new_quota = refl;
      })
      accepts_own refl (λ n. refl) (λ n. refl) refl (omega arith) refl refl

-- A world in which the first user may set a new password with a text that is stored as it is.
abbrev resettable : World
resettable = record calm {
  db = record tables {
    reseters =
        record {
          id = 7;
          user_id = 1;
          token = 77 ∷ [];
          used = false;
          created_at = 0;
          expire_at = 5000;
        }
        ∷ [];
  };
}

abbrev pending_row : Reseter
pending_row = record {
  id = 7;
  user_id = 1;
  token = 77 ∷ [];
  used = false;
  created_at = 0;
  expire_at = 5000;
}

reset_password_post-Resets_example :
    Reset.Resets sample config pending_row
      (100 ∷ codes "newpep")
      (text_eq (codes "new") (codes "new"))
      resettable
      (Service.reset_password_post sample config (77 ∷ []) (codes "new") (codes "new") resettable)
unfolding find? text_eq
reset_password_post-Resets_example =
    Reset.reset_password_post-Resets sample config (77 ∷ []) (codes "new") (codes "new")
      (100 ∷ codes "newpep") pending_row resettable refl refl

abbrev forgotten : World
forgotten = (Service.forgot_password sample config (codes "a@x") calm).1

mailed_reset-refused_example :
    ((Service.reset_password_post sample config (100 ∷ []) pass pass forgotten).0
      ≡ err (join (known reseter_token_fetch_failed) (known no_rows)))
    × ((Service.reset_password_get sample config (100 ∷ []) forgotten).0
        ≡ err (join (known reseter_token_fetch_failed) (known no_rows)))
    × ((Service.reset_password_post sample config (100 ∷ []) pass pass forgotten).1.db
        ≡ forgotten.db)
unfolding any text_eq Service.forgot_password find?
mailed_reset-refused_example =
    Reset.mailed_reset-refused sample config (codes "a@x") pass pass
      (record { to = codes "a@x"; name = codes "forgot-password"; token = 100 ∷ [] }) calm forgotten
      refl refl refl refl refl

-- The request of the first user has expired.
abbrev late : World
late = record resettable { now = 6000 }

abbrev asked_again : World
asked_again = (Service.forgot_password sample config (codes "a@x") late).1
