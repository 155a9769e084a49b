-- ===== src/Tests/Pool.antt =====
-- The theorems on the loops of the workers at concrete deliveries.
use ffgif.Base.{
  ℕ, ◌+◌, ◌≡◌, refl, true, Option, some, [], ◌∷◌, arith, codes, text_eq, select, countp,
}
use ffgif.World.{World, EmailMessage}
use ffgif.Workers.Emails.{is_known, receivers, asked}
use ffgif.Workers.Pool.{
  Pool, returned, shut_down, run, Reach, here, next, deliver, receive, start, finish,
}
use ffgif.Workers.Pool.Slots
use ffgif.Workers.Pool.Progress
use ffgif.Workers.Pool.Shutdown
use ffgif.Workers.Pool.Mails
use ffgif.Workers.Pool.Mails.{mail_handler, decoded}
use ffgif.Tests.Sample.{calm}

abbrev add : ℕ → ℕ → ℕ
add d s = d + s

-- Two deliveries, the first of which is being handled.
abbrev one_running : Pool ℕ ℕ
one_running = record (run true 0) { waiting = 9 ∷ []; in_flight = 7 ∷ []; delivered = 7 ∷ 9 ∷ [] }

one_running-Reach : Reach 1 add (run true 0) one_running
unfolding run
one_running-Reach =
    next
      (next (next (next here (deliver 7 refl)) (receive 7 [] refl refl))
        (start 7 refl (omega arith)))
      (deliver 9 refl)

Reach-IsSound_example : Slots.IsSound 1 one_running
Reach-IsSound_example = Slots.Reach-IsSound 1 add true 0 one_running one_running-Reach

Reach-drains_example :
    (t : Pool ℕ ℕ) × Reach 1 add one_running t
    × Progress.IsDry t
    × ((p : ℕ → _) → countp p t.finished ≡ countp p (7 ∷ 9 ∷ []))
unfolding run
Reach-drains_example =
    Progress.Reach-drains 1 add true 0 one_running (omega arith) one_running-Reach tt

signal-abandons_example :
    (t : Pool ℕ ℕ) × Reach 2 add (run true 0) t
    × (t.loop ≡ returned shut_down)
    × (t.in_flight ≡ 7 ∷ 9 ∷ [])
    × (t.finished ≡ [])
    × (t.store ≡ 0)
signal-abandons_example = Shutdown.signal-abandons 2 add 0 (7 ∷ 9 ∷ []) (omega arith)

abbrev hello : EmailMessage
hello = record { to = codes "a@x"; name = codes "share"; token = codes "t" }

-- One mail, handled.
abbrev mailed : Pool (Option EmailMessage) World
mailed = record (run true calm) {
  finished = some hello ∷ [];
  delivered = some hello ∷ [];
  store = mail_handler (codes "f@x") (some hello) calm;
}

mailed-Reach : Reach 10 (mail_handler (codes "f@x")) (run true calm) mailed
unfolding run
mailed-Reach =
    next
      (next (next (next here (deliver (some hello) refl)) (receive (some hello) [] refl refl))
        (start (some hello) refl (omega arith)))
      (finish [] [] (some hello) refl)

Reach-mailed_once_example :
    countp (text_eq (codes "a@x")) (receivers mailed.store.sent)
    ≡ countp (text_eq (codes "a@x")) (receivers calm.sent)
      + countp (text_eq (codes "a@x")) (asked (select is_known (decoded mailed.delivered)))
unfolding run
Reach-mailed_once_example =
    Mails.Reach-mailed_once (codes "f@x") 10 calm mailed (λ n. refl) mailed-Reach (refl, refl, refl)
      (codes "a@x")
