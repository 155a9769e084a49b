-- ===== src/Mailer.antt =====
-- internal/infra/mailer/smtp.go and msg_generator.go. gomail's DialAndSend is one call to the
-- outside.
use ffgif.Base.{[], ◌∷◌, ◌++◌, Text, codes}
use ffgif.World.{Io, ok, attempt, Mail}

unfoldable pub verify_account_body : Text → Text
verify_account_body token =
    codes
      "\n\t\t\t<h1>Welcome To FFgif</h1>\n            <p>Click the link below to verify your account.</p>\n\t\t\t<button>\n            <a href=\""
    ++ (codes "http://127.0.0.1:8080/auth/verify?token=" ++ token)
    ++ codes
        "\">Verify my account</a>\n\t\t\t</button>\n            <p>This link expires in 30 minutes.</p>\n        "

unfoldable pub send_password_reset_body : Text → Text
send_password_reset_body token =
    codes
      "\n\t\t\t<h1>FFgif Password Reset</h1>\n            <p>Click the link below to reset your password.</p>\n\t\t\t<button>\n            <a href=\""
    ++ (codes "http://127.0.0.1:8080/auth/reset?token=" ++ token)
    ++ codes
        "\">reset password</a>\n\t\t\t</button>\n            <p>This link expires in 15 minutes.</p>\n        "

unfoldable pub send_share_body : Text → Text
send_share_body token =
    codes
      "\n\t\t\t<h1>FFgif Gif Share</h1>\n            <p>Click the link below to download the shared GIF.</p>\n\t\t\t<button>\n            <a href=\""
    ++ (codes "http://127.0.0.1:8080/s/" ++ token)
    ++ codes "\">GIF</a>\n\t\t\t</button>\n        "

-- gomail's DialAndSend
unfoldable pub dial_and_send : Mail → Io (Unit {0})
unfolding attempt
dial_and_send msg = attempt (λ w. (ok tt, record w { sent = w.sent ++ msg ∷ [] }))

-- `from` is the address of the sender.
module _ (from : Text) where
  abbrev pub verification_token_mail : Text → Text → Mail
  verification_token_mail email token = record {
    from = from;
    to = email;
    subject = codes "Verify your account";
    body = verify_account_body token;
  }

  unfoldable pub send_verification_token : Text → Text → Io (Unit {0})
  unfolding dial_and_send
  send_verification_token email token = dial_and_send (verification_token_mail email token)

  abbrev pub reset_password_mail : Text → Text → Mail
  reset_password_mail email token = record {
    from = from;
    to = email;
    subject = codes "Reset Password";
    body = send_password_reset_body token;
  }

  unfoldable pub send_reset_password : Text → Text → Io (Unit {0})
  unfolding dial_and_send
  send_reset_password email token = dial_and_send (reset_password_mail email token)

  abbrev pub reset_notification_mail : Text → Mail
  reset_notification_mail email = record {
    from = from;
    to = email;
    subject = codes "Reset Password";
    body = codes "<h1>Alert, your password has been reset</h1>";
  }

  unfoldable pub send_reset_notification : Text → Io (Unit {0})
  unfolding dial_and_send
  send_reset_notification email = dial_and_send (reset_notification_mail email)

  abbrev pub share_notification_mail : Text → Text → Mail
  share_notification_mail email token = record {
    from = from;
    to = email;
    subject = codes "Share gif";
    body = send_share_body token;
  }

  unfoldable pub send_share_notification : Text → Text → Io (Unit {0})
  unfolding dial_and_send
  send_share_notification email token = dial_and_send (share_notification_mail email token)
