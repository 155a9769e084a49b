-- ===== src/Auth/Reset.antt =====
-- The recovery of a password: internal/app/auth/forgot_password.go and reset_password.go with the
-- queries of `reseterRepo`.
use ffgif.Base.{
  ℕ, ◌+◌, ◌*◌, ◌≡◌, refl, ap, ◌∙◌, sym, subst, codes, Bool, true, false, none, some, List, [], ◌∷◌,
  ◌++◌, arith, Text, text_eq, find?, any, update_where, delete_where, find?-sound, ◌⊎◌, any-append,
  Option-cases, inl, inr, ◌==◌,
}
use ffgif.World.{
  Db, World, EmailMessage, Result, ok, err, External, known, errors_is, Reseter,
  reseter_token_fetch_failed, no_rows, join, message_queue_failed,
}
use ffgif.World.Mails.{append_last, append-longer}
use ffgif.Pkg.{Config, minute}
use ffgif.Auth.Users
use ffgif.Auth.Reseters
use ffgif.Auth.Service
use ffgif.Auth.Service.{new_reseter, email_of}

-- No row of `reseter` holds the text as its hash.
abbrev pub IsNoHash : Text → World → Type 0
IsNoHash t w = any (Reseters.has_hash t) w.db.reseters ≡ false

any-of_live :
    (hash : Text) (now : ℕ) (rs : List Reseter)
    → any (Reseters.has_hash hash) rs ≡ false
    → find? (Reseters.is_live hash now) rs ≡ none
unfolding any find?
any-of_live hash now [] h = refl
any-of_live hash now (r ∷ rs) h = ground (arith, any-of_live hash now rs)

-- Replacing the hash of a user's row, as `Reseters.create` does, brings in no other hash.
renewed_lem :
    (user : ℕ) (hash t : Text) (rs : List Reseter)
    → any (Reseters.has_hash t) rs ≡ false
    → text_eq hash t ≡ false
    → any
        (Reseters.has_hash t)
        (update_where (Reseters.is_of user) (λ r. record r { token = hash }) rs)
      ≡ false
unfolding any update_where
renewed_lem user hash t [] h d = refl
renewed_lem user hash t (r ∷ rs) h d = ground (arith, renewed_lem user hash t rs)

module _ (x : External) (cfg : Config) (w : World) where
  -- The token that `ForgotPassword` mails.
  abbrev pub mailed : Text
  mailed = x.uuid_string (w.uuids w.drawn)

  -- The row that `Reseters.create` adds for a user.
  abbrev added_row : ℕ → Reseter
  added_row user = record (new_reseter user (x.sha256_hex mailed)) {
    id = w.serial;
    created_at = w.now;
    expire_at = w.now + 15 * minute;
  }

  -- After the call no row holds the mailed token itself, if none did before and the token is not
  -- its own hash.
  forgot_password-IsNoHash :
      (email : Text)
      → IsNoHash mailed w
      → text_eq (x.sha256_hex mailed) mailed ≡ false
      → IsNoHash mailed (Service.forgot_password x cfg email w).1
  unfolding Service.forgot_password any
  forgot_password-IsNoHash email h d =
      elim (Option-cases (find? (Users.has_email email) w.db.users)) [
        | inl e ↦ ground arith
        | inr (u, e) ↦ ground (
          arith,
          renewed_lem u.id (x.sha256_hex mailed) mailed w.db.reseters h d,
          any-append (Reseters.has_hash mailed) w.db.reseters (added_row u.id ∷ []),
        )
      ]

module _ (x : External) (cfg : Config) where
  -- The only mail that a `ForgotPassword` publishes has the token.
  forgot_password-mails :
      (email : Text) (mail : EmailMessage) (w : World)
      → (Service.forgot_password x cfg email w).1.emails ≡ w.emails ++ mail ∷ []
      → mail.token ≡ mailed x cfg w
  unfolding Service.forgot_password
  forgot_password-mails email mail w h =
      elim (Option-cases (find? (Users.has_email email) w.db.users)) [
        | inl e ↦ ground (arith, append-longer w.emails mail)
        | inr (u, e) ↦ ground (
          arith,
          append-longer w.emails mail,
          append_last w.emails (email_of u.email (codes "forgot-password") (mailed x cfg w)) mail,
        )
      ]

  -- A text that no row holds is refused by both halves of the reset, and nothing changes.
  reset_refused :
      (token pass confirm : Text) (v : World)
      → IsNoHash token v
      → v.outage v.calls ≡ none
      → ((Service.reset_password_post x cfg token pass confirm v).0
          ≡ err (join (known reseter_token_fetch_failed) (known no_rows)))
        × ((Service.reset_password_get x cfg token v).0
            ≡ err (join (known reseter_token_fetch_failed) (known no_rows)))
        × ((Service.reset_password_post x cfg token pass confirm v).1.db ≡ v.db)
  unfolding Service.reset_password_post Service.reset_password_get
  reset_refused token pass confirm v h up = ground (arith, any-of_live token v.now v.db.reseters h)

  -- The link that `ForgotPassword` mails does not work: if `mail` is the message that the call has put
  -- into the queue, then its token, which is not its own hash and which no row held before, is refused by `ResetPasswordGet` and `ResetPasswordPost`
  -- with `ErrReseterTokenFatchFailed`, at any time and for any password, since they look the token
  -- up as it is among the hashes. `v` is any world with the table `reseter` that the call left.
  pub mailed_reset-refused :
      (email pass confirm : Text) (mail : EmailMessage) (w v : World)
      → (Service.forgot_password x cfg email w).1.emails ≡ w.emails ++ mail ∷ []
      → IsNoHash mail.token w
      → text_eq (x.sha256_hex mail.token) mail.token ≡ false
      → v.db.reseters ≡ (Service.forgot_password x cfg email w).1.db.reseters
      → v.outage v.calls ≡ none
      → ((Service.reset_password_post x cfg mail.token pass confirm v).0
          ≡ err (join (known reseter_token_fetch_failed) (known no_rows)))
        × ((Service.reset_password_get x cfg mail.token v).0
            ≡ err (join (known reseter_token_fetch_failed) (known no_rows)))
        × ((Service.reset_password_post x cfg mail.token pass confirm v).1.db ≡ v.db)
  mailed_reset-refused email pass confirm mail w v sent h d same up =
      let e = forgot_password-mails email mail w sent in
      let absent =
        forgot_password-IsNoHash x cfg w email (subst (λ (t : Text). IsNoHash t w) e h)
          (subst (λ (t : Text). text_eq (x.sha256_hex t) t ≡ false) e d) in
      reset_refused mail.token pass confirm v
        (ap (any (Reseters.has_hash mail.token)) same
          ∙ subst (λ (t : Text). IsNoHash t (Service.forgot_password x cfg email w).1) (sym e)
              absent)
        up

  -- What `ResetPasswordPost` does with the row that it finds.
  abbrev pub reset : Reseter → Text → Db → Db
  reset r hash db = record db {
    users = update_where (Users.has_id r.user_id) (λ u. record u { password_hash = hash }) db.users;
    reseters = delete_where (λ (o : Reseter). o.id == r.id) db.reseters;
  }

  -- The outcomes of a reset, by its result.
  abbrev pub Resets : Reseter → Text → Bool → World → Result (Unit {0}) × World → Type 0
  Resets r hash same w (ok _, w') = (w'.db ≡ reset r hash w.db) × (same ≡ true)
  Resets r hash same w (err e, w') =
      (w'.db ≡ w.db) ⊎ ((w'.db ≡ reset r hash w.db) × (errors_is e message_queue_failed ≡ true))

  -- For a text that a live row of `reseter` holds, where bcrypt hashes the password, and under
  -- any outage: a `ResetPasswordPost` that succeeds was given the same password twice, has set
  -- its hash for the user of the row and deleted the row; one that fails has changed no table,
  -- unless it fails in the queue, when it has done the same.
  pub reset_password_post-Resets :
      (token pass confirm hash : Text) (r : Reseter) (w : World)
      → find? (Reseters.is_live token w.now) w.db.reseters ≡ some r
      → x.bcrypt_generate (w.uuids w.drawn) cfg.cost (pass ++ cfg.pepper) ≡ some hash
      → Resets r hash
          (text_eq pass confirm)
          w
          (Service.reset_password_post x cfg token pass confirm w)
  unfolding Service.reset_password_post
  reset_password_post-Resets token pass confirm hash r w h g =
      elim (Option-cases (find? (Users.has_id r.user_id) w.db.users)) [
        | inl e ↦ ground arith
        | inr (u, e) ↦ ground (arith, find?-sound (Users.has_id r.user_id) w.db.users u e)
      ]
