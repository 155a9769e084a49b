-- ===== src/Workers/Emails.antt =====
-- internal/worker/email_worker.go, the loop of `Run` with the queue email.queue: the deliveries are
-- taken one after the other here. A message that is rejected goes to email.queue.dead.
use ffgif.Base.{
  ℕ, zero, suc, ◌+◌, ◌≡◌, refl, sym, ap, subst, Bool, true, false, ◌||◌, not, Option, none, some,
  List, [], ◌∷◌, ◌++◌, arith, Text, codes, text_eq, length, select,
}
use ffgif.World.{World, Result, ok, err, NoOutage, EmailMessage, Mail}
use ffgif.Workers.Delivery.{Settlement, acked, dead, requeued, unsettled}
use ffgif.Mailer
use ffgif.Workers.Handle

append_assoc {ℓ} : {A : Type ℓ} (a b c : List A) → (a ++ b) ++ c ≡ a ++ (b ++ c)
append_assoc [] b c = refl
append_assoc (x ∷ a) b c = ap (λ (t : List _). x ∷ t) (append_assoc a b c)

-- The dead queue, and the world with the queue.
abbrev pub Broker : Type 0
Broker = List EmailMessage × World

-- What the broker does with the delivery `m`, the head of the queue.
unfoldable pub after_email :
    List EmailMessage → EmailMessage → List EmailMessage → Result Settlement × World → Broker
after_email graves m rest (ok acked, v) = (graves, record v { emails = rest })
after_email graves m rest (ok dead, v) = (graves ++ m ∷ [], record v { emails = rest })
after_email graves m rest (ok requeued, v) = (graves, v)
after_email graves m rest (ok unsettled, v) = (graves, v)
after_email graves m rest (err _, v) = (graves, v)

-- One turn of the loop.
unfoldable pub step_email : Text → Broker → Broker
unfolding after_email Handle.handle_email
step_email from (graves, w) = elim w.emails [
  | [] ↦ (graves, w)
  | m ∷ rest ↦ after_email graves m rest (Handle.handle_email from (some m) w)
]

unfoldable pub run_emails : Text → ℕ → Broker → Broker
unfolding step_email
run_emails from zero b = b
run_emails from (suc n) b = run_emails from n (step_email from b)

-- The kinds of mail.
abbrev pub is_known : EmailMessage → Bool
is_known m =
    text_eq m.name (codes "signup")
    || text_eq m.name (codes "forgot-password")
    || text_eq m.name (codes "resend-verify")
    || text_eq m.name (codes "reset-password")
    || text_eq m.name (codes "share")

abbrev pub receivers : List Mail → List Text
receivers [] = []
receivers (m ∷ l) = m.to ∷ receivers l

abbrev pub asked : List EmailMessage → List Text
asked [] = []
asked (m ∷ l) = m.to ∷ asked l

pub receivers-append : (l k : List Mail) → receivers (l ++ k) ≡ receivers l ++ receivers k
receivers-append [] k = refl
receivers-append (m ∷ l) k = ap (λ (t : List Text). m.to ∷ t) (receivers-append l k)

append_nil {ℓ} : {A : Type ℓ} (l : List A) → l ++ [] ≡ l
append_nil [] = refl
append_nil (a ∷ l) = ap (λ (t : List _). a ∷ t) (append_nil l)

module _ (from : Text) where
  -- The outcome of one delivery without an outage, whose mail is known or not.
  abbrev pub Delivers : Bool → EmailMessage → List EmailMessage → Broker → Broker → Type 0
  Delivers true m rest (graves, w) (graves', v) =
      (receivers v.sent ≡ receivers w.sent ++ m.to ∷ [])
      × (graves' ≡ graves)
      × (v.outage ≡ w.outage)
      × (v.emails ≡ rest)
  Delivers false m rest (graves, w) (graves', v) =
      (v.sent ≡ w.sent) × (graves' ≡ graves ++ m ∷ []) × (v.outage ≡ w.outage) × (v.emails ≡ rest)

  step-Delivers :
      (graves : List EmailMessage) (m : EmailMessage) (rest : List EmailMessage) (w : World)
      → w.emails ≡ m ∷ rest
      → NoOutage w
      → Delivers (is_known m) m rest (graves, w) (step_email from (graves, w))
  unfolding step_email text_eq
  step-Delivers graves m rest w h up = ground (
    arith,
    up w.calls,
    up (w.calls + 1),
    receivers-append w.sent (Mailer.verification_token_mail from m.to m.token ∷ []),
    receivers-append w.sent (Mailer.reset_password_mail from m.to m.token ∷ []),
    receivers-append w.sent (Mailer.reset_notification_mail from m.to ∷ []),
    receivers-append w.sent (Mailer.share_notification_mail from m.to m.token ∷ []),
  )

  goes_on :
      (k : Bool) (m : EmailMessage) (rest : List EmailMessage) (b c : Broker)
      → Delivers k m rest b c
      → NoOutage b.1
      → NoOutage c.1 × (c.1.emails ≡ rest)
  goes_on true m rest b c h up =
      (subst (λ (o : ℕ → Option ℕ). (n : ℕ) → o n ≡ none) (sym h.2) up, h.3)
  goes_on false m rest b c h up =
      (subst (λ (o : ℕ → Option ℕ). (n : ℕ) → o n ≡ none) (sym h.2) up, h.3)

  -- The queue is empty, every mail of a known kind has been sent, in the order of the queue, and
  -- every other message lies in the dead queue.
  abbrev pub Empties : List EmailMessage → Broker → Broker → Type 0
  Empties es b c =
      (c.1.emails ≡ [])
      × (receivers c.1.sent ≡ receivers b.1.sent ++ asked (select is_known es))
      × (c.0 ≡ b.0 ++ select (λ m. not (is_known m)) es)

  one_more :
      (m : EmailMessage) (es : List EmailMessage) (b c d : Broker)
      → Delivers (is_known m) m es b c
      → Empties es c d
      → Empties (m ∷ es) b d
  unfolding select
  one_more m es b c d h k = ground (
    arith,
    append_assoc (receivers b.1.sent) (m.to ∷ []) (asked (select is_known es)),
    append_assoc b.0 (m ∷ []) (select (λ n. not (is_known n)) es),
  )

  run_lem :
      (es graves : List EmailMessage) (w : World)
      → w.emails ≡ es
      → NoOutage w
      → Empties es (graves, w) (run_emails from (length es) (graves, w))
  unfolding run_emails select
  run_lem [] graves w h up = (h, sym (append_nil (receivers w.sent)), sym (append_nil graves))
  run_lem (m ∷ es) graves w h up =
      let c = step_email from (graves, w) in
      let d = step-Delivers graves m es w h up in
      let (still, rest) = goes_on (is_known m) m es (graves, w) c d up in
      one_more m es (graves, w) c (run_emails from (length es) c) d (run_lem es c.0 c.1 rest still)

  -- If nothing fails outside, as many turns of the loop as there are messages empty the queue of
  -- emails: a mail has been sent to the receiver of each message of a known kind, in the order of
  -- the queue, and the messages of no known kind are in the dead queue.
  pub run_emails-Empties :
      (graves : List EmailMessage) (w : World)
      → NoOutage w
      → Empties w.emails (graves, w) (run_emails from (length w.emails) (graves, w))
  run_emails-Empties graves w up = run_lem w.emails graves w refl up
