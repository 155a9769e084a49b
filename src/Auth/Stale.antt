-- ===== src/Auth/Stale.antt =====
-- A second request to recover a password, after the first one has expired:
-- internal/app/auth/forgot_password.go and `reseterRepo.Create`.
use ffgif.Base.{
  ℕ, ◌≤◌, ◌≡◌, refl, true, false, ◌&&◌, none, some, List, [], ◌∷◌, arith, Text, find?, any,
  update_where, ltb,
}
use ffgif.World.{World, err, External, User, Reseter, known, no_rows}
use ffgif.Pkg.{Config}
use ffgif.Auth.Users
use ffgif.Auth.Reseters
use ffgif.Auth.Service
use ffgif.Auth.Reset.{mailed}

-- The user has a row, and every row of his has expired.
abbrev pub HasExpired : ℕ → ℕ → List Reseter → Type 0
HasExpired user now rs =
    (any (Reseters.is_of user) rs ≡ true)
    × (any (λ r. Reseters.is_of user r && ltb now r.expire_at) rs ≡ false)

stale :
    (user now later : ℕ) (hash : Text) (rs : List Reseter)
    → any (λ r. Reseters.is_of user r && ltb now r.expire_at) rs ≡ false
    → any (Reseters.has_hash hash) rs ≡ false
    → now ≤ later
    → find?
        (Reseters.is_live hash later)
        (update_where (Reseters.is_of user) (λ r. record r { token = hash }) rs)
      ≡ none
unfolding any find? update_where
stale user now later hash [] h d t = refl
stale user now later hash (r ∷ rs) h d t = ground (arith, stale user now later hash rs)

live_none :
    (hash : Text) (now : ℕ) (rs : List Reseter)
    → any (Reseters.has_hash hash) rs ≡ false
    → find? (Reseters.is_live hash now) rs ≡ none
unfolding any find?
live_none hash now [] h = refl
live_none hash now (r ∷ rs) h = ground (arith, live_none hash now rs)

module _ (x : External) (cfg : Config) where
  -- A user whose first request has expired cannot recover the account by asking again: the new
  -- hash, which no row held before, takes over the expiry of the old row, so that from then on
  -- even the stored hash itself is found by no query, whatever the outages of the call were.
  pub forgot_password-stale :
      (email : Text) (u : User) (w v : World)
      → find? (Users.has_email email) w.db.users ≡ some u
      → HasExpired u.id w.now w.db.reseters
      → any (Reseters.has_hash (x.sha256_hex (mailed x cfg w))) w.db.reseters ≡ false
      → v.db.reseters ≡ (Service.forgot_password x cfg email w).1.db.reseters
      → w.now ≤ v.now
      → v.outage v.calls ≡ none
      → (Reseters.get_by_token (x.sha256_hex (mailed x cfg w)) v).0 ≡ err (known no_rows)
  unfolding Service.forgot_password Reseters.get_by_token
  forgot_password-stale email u w v found old fresh same later up =
      let hash = x.sha256_hex (mailed x cfg w) in
      ground (
        arith,
        stale u.id w.now v.now hash w.db.reseters old.1 fresh later,
        live_none hash v.now w.db.reseters fresh,
      )
