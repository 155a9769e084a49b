-- ===== src/Workers/Saves.antt =====
-- internal/worker/save_metadata_worker.go, the loop of `Run` with the queue video.save.queue: the
-- deliveries are taken one after the other here. That the queue of retries gives its copies back
-- after a second (internal/infra/rabbitmq/setup.go) is left out.
use ffgif.Base.{
  ℕ, zero, suc, ◌+◌, ◌≡◌, refl, sym, ap, ◌∙◌, subst, none, some, List, [], ◌∷◌, ◌++◌, arith, length,
  length-append,
}
use ffgif.World.{World, Result, ok, err, External, NoOutage, SaveVideoMessage}
use ffgif.Workers.Delivery.{Settlement, acked, dead, requeued, unsettled}
use ffgif.Workers.Handle

-- The dead queue, and the world with the queue.
abbrev pub Broker : Type 0
Broker = List SaveVideoMessage × World

-- What the broker does with the delivery `m`, the head of the queue.
unfoldable pub after_save :
    List SaveVideoMessage
    → SaveVideoMessage
    → List SaveVideoMessage
    → Result Settlement × World
    → Broker
after_save graves m rest (ok acked, v) = (graves, record v { saves = rest })
after_save graves m rest (ok dead, v) = (graves ++ m ∷ [], record v { saves = rest })
after_save graves m rest (ok requeued, v) = (graves, v)
after_save graves m rest (ok unsettled, v) = (graves, v)
after_save graves m rest (err _, v) = (graves, v)

module _ (x : External) where
  -- One turn of the loop.
  unfoldable pub step_save : Broker → Broker
  unfolding after_save Handle.handle_save
  step_save (graves, w) = elim w.saves [
    | [] ↦ (graves, w)
    | m ∷ rest ↦ after_save graves m rest (Handle.handle_save x (some m) w)
  ]

  unfoldable pub run_saves : ℕ → Broker → Broker
  unfolding step_save
  run_saves zero b = b
  run_saves (suc n) b = run_saves n (step_save b)

  -- The queue is as it was, and the queue of retries has so many messages more.
  abbrev pub Repeats : ℕ → Broker → Broker → Type 0
  Repeats n b c =
      (c.0 ≡ b.0)
      × (c.1.saves ≡ b.1.saves)
      × (length c.1.save_retries ≡ n + length b.1.save_retries)
      × (c.1.outage ≡ b.1.outage)
      × (c.1.stat ≡ b.1.stat)
      × (c.1.db ≡ b.1.db)

  step-Repeats :
      (graves : List SaveVideoMessage) (m : SaveVideoMessage) (rest : List SaveVideoMessage) (u : ℕ)
      (w : World)
      → w.saves ≡ m ∷ rest
      → x.uuid_parse m.user_id ≡ some u
      → w.stat m.key ≡ none
      → NoOutage w
      → Repeats 1 (graves, w) (step_save (graves, w))
  unfolding step_save
  step-Repeats graves m rest u w h parsed absent up =
      ground (
        arith,
        up w.calls,
        up (w.calls + 1),
        up (w.calls + 2),
        length-append w.save_retries (m ∷ []),
      )

  -- A message on an object that the storage does not know, at the head of the queue, is never
  -- settled: after any number of turns without an outage it still stands at the head, no table has
  -- changed, and every turn has put one more copy into the queue of retries.
  pub run_saves-Repeats :
      (n : ℕ) (graves : List SaveVideoMessage) (m : SaveVideoMessage) (rest : List SaveVideoMessage)
      (u : ℕ) (w : World)
      → w.saves ≡ m ∷ rest
      → x.uuid_parse m.user_id ≡ some u
      → w.stat m.key ≡ none
      → NoOutage w
      → Repeats n (graves, w) (run_saves n (graves, w))
  unfolding run_saves
  run_saves-Repeats zero graves m rest u w h parsed absent up =
      (refl, refl, omega arith, refl, refl, refl)
  run_saves-Repeats (suc n) graves m rest u w h parsed absent up =
      let b = step_save (graves, w) in
      let (s0, s1, s2, s3, s4, s5) = step-Repeats graves m rest u w h parsed absent up in
      let (t0, t1, t2, t3, t4, t5) =
        run_saves-Repeats n b.0 m rest u b.1 (s1 ∙ h) parsed (ap (λ (f : _). f m.key) s4 ∙ absent)
          (subst (λ (o : ℕ → _). (k : ℕ) → o k ≡ none) (sym s3) up) in
      (t0 ∙ s0, t1 ∙ s1, omega (arith, s2, t2), t3 ∙ s3, t4 ∙ s4, t5 ∙ s5)
