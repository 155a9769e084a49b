-- ===== src/Workers/Pool/Mails.antt =====
-- internal/worker/email_worker.go: the goroutines of the email worker, which end in any order.
use ffgif.Base.{
  ℕ, ◌+◌, ◌≡◌, refl, sym, subst, ◌∙◌, Bool, true, false, ◌&&◌, Option, none, some, List, [], ◌∷◌,
  ◌++◌, arith, Text, text_eq, select, countp, countp-append, if◌then◌else◌,
}
use ffgif.World.{World, NoOutage, EmailMessage}
use ffgif.Mailer
use ffgif.Workers.Handle
use ffgif.Workers.Emails.{is_known, receivers, asked, receivers-append}
use ffgif.Workers.Pool.{
  Pool, run, Step, deliver, close, signal, receive, start, stop, drained, finish, Reach, here, next,
}
use ffgif.Workers.Pool.Slots.{Reach-IsSound}
use ffgif.Workers.Pool.Progress.{IsDry}

-- The messages among the deliveries.
abbrev pub decoded : {A : Type 0} → List (Option A) → List A
decoded [] = []
decoded (none ∷ ds) = decoded ds
decoded (some m ∷ ds) = m ∷ decoded ds

module _ (from : Text) where
  -- What a goroutine does to the rest of the system. A delivery is `none` if its body is no message.
  unfoldable pub mail_handler : Option EmailMessage → World → World
  unfolding Handle.handle_email
  mail_handler m w = (Handle.handle_email from m w).1

  abbrev with_receiver : Option EmailMessage → List Text → List Text
  with_receiver none l = l
  with_receiver (some m) l = if is_known m then l ++ m.to ∷ [] else l

  handler-mails :
      (m : Option EmailMessage) (w : World)
      → NoOutage w
      → (receivers (mail_handler m w).sent ≡ with_receiver m (receivers w.sent))
        × ((mail_handler m w).outage ≡ w.outage)
  unfolding mail_handler text_eq
  handler-mails none w up = ground (arith, up w.calls)
  handler-mails (some m) w up = ground (
    arith,
    up w.calls,
    receivers-append w.sent (Mailer.verification_token_mail from m.to m.token ∷ []),
    receivers-append w.sent (Mailer.reset_password_mail from m.to m.token ∷ []),
    receivers-append w.sent (Mailer.reset_notification_mail from m.to ∷ []),
    receivers-append w.sent (Mailer.share_notification_mail from m.to m.token ∷ []),
  )

  abbrev to_known : (Text → Bool) → Option EmailMessage → Bool
  to_known p none = false
  to_known p (some m) = is_known m && p m.to

  countp-with_receiver :
      (p : Text → Bool) (m : Option EmailMessage) (l : List Text)
      → countp p (with_receiver m l) ≡ countp p l + (if to_known p m then 1 else 0)
  countp-with_receiver p none l = omega arith
  countp-with_receiver p (some m) l = ground (arith, countp-append p l (m.to ∷ []))

  countp-asked :
      (p : Text → Bool) (ds : List (Option EmailMessage))
      → countp p (asked (select is_known (decoded ds))) ≡ countp (to_known p) ds
  unfolding select
  countp-asked p [] = refl
  countp-asked p (none ∷ ds) = ground (arith, countp-asked p ds)
  countp-asked p (some m ∷ ds) = ground (arith, countp-asked p ds)

  -- What has been sent is what the handlers that have ended were asked for.
  record Mailed (w : World) (s : Pool (Option EmailMessage) World) : Type 0 where
    up : s.store.outage ≡ w.outage
    sent :
        (p : Text → Bool)
        → countp p (receivers s.store.sent)
          ≡ countp p (receivers w.sent) + countp (to_known p) s.finished

  up_of : (w v : World) → v.outage ≡ w.outage → NoOutage w → NoOutage v
  up_of w v e up = subst (λ (o : ℕ → Option ℕ). (n : ℕ) → o n ≡ none) (sym e) up

  Step-Mailed :
      (c : ℕ) (w : World) (s t : Pool (Option EmailMessage) World)
      → NoOutage w
      → Step c mail_handler s t
      → Mailed w s
      → Mailed w t
  Step-Mailed c w s t up (deliver d o) h = record { up = h.up; sent = h.sent }
  Step-Mailed c w s t up close h = record { up = h.up; sent = h.sent }
  Step-Mailed c w s t up signal h = record { up = h.up; sent = h.sent }
  Step-Mailed c w s t up (receive d ds e f) h = record { up = h.up; sent = h.sent }
  Step-Mailed c w s t up (start d e free) h = record { up = h.up; sent = h.sent }
  Step-Mailed c w s t up (stop e f) h = record { up = h.up; sent = h.sent }
  Step-Mailed c w s t up (drained e f g) h = record { up = h.up; sent = h.sent }
  Step-Mailed c w s t up (finish ds es d e) h =
      let one = handler-mails d s.store (up_of w s.store h.up up) in
      record {
        up = one.1 ∙ h.up;
        sent = λ p. ground (
          arith,
          one.0,
          h.sent p,
          countp-with_receiver p d (receivers s.store.sent),
          countp-append (to_known p) s.finished (d ∷ []),
        );
      }

  Reach-Mailed :
      (c : ℕ) (w : World) (s : Pool (Option EmailMessage) World)
      → NoOutage w
      → Reach c mail_handler (run true w) s
      → Mailed w s
  unfolding run
  Reach-Mailed c w _ up here = record { up = refl; sent = λ p. omega arith }
  Reach-Mailed c w t up (next {t = s} r st) = Step-Mailed c w s t up st (Reach-Mailed c w s up r)

  -- Ten goroutines send the same mails as one: if nothing fails outside, then in whatever order the
  -- handlers end, and whatever is delivered meanwhile, as soon as no delivery waits or is being
  -- handled, every address has been sent as many mails as there were messages of a known kind to it
  -- among all that were delivered.
  pub Reach-mailed_once :
      (c : ℕ) (w : World) (s : Pool (Option EmailMessage) World)
      → NoOutage w
      → Reach c mail_handler (run true w) s
      → IsDry s
      → (a : Text)
      → countp (text_eq a) (receivers s.store.sent)
        ≡ countp (text_eq a) (receivers w.sent)
          + countp (text_eq a) (asked (select is_known (decoded s.delivered)))
  Reach-mailed_once c w s up r dry a =
      let p = text_eq a in
      ground (
        arith,
        (Reach-Mailed c w s up r).sent p,
        countp-asked p s.delivered,
        (Reach-IsSound c mail_handler true w s r).kept (to_known p),
      )
