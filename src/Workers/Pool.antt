-- ===== src/Workers/Pool.antt =====
-- The methods `Run` of internal/worker, which are one loop: a delivery that the channel gives is
-- handed to a goroutine as soon as one of the `concurrency` slots of the semaphore is free. A step
-- is one action of the loop, of a goroutine, of the broker or of the signal handler; they come in
-- any order. What a handler does to the rest of the system is one step, at its end.
use ffgif.Base.{ℕ, ◌<◌, ◌≡◌, Bool, true, false, List, [], ◌∷◌, ◌++◌, length}
pub mod Slots
pub mod Progress
pub mod Shutdown
pub mod Mails
pub mod Instances

-- What `Run` returns: nil after the signal, `ErrConsumerChannelClosed`, or the error of `Consume`.
pub data Return : Type 0 where
  shut_down channel_closed not_consuming : Return

pub data Loop (D : Type 0) : Type 0 where
  -- in the select
  selecting : Loop D
  -- at `sem <- struct{}{}` with a delivery
  holding : D → Loop D
  returned : Return → Loop D

pub record Pool (D S : Type 0) : Type 0 where
  pub loop : Loop D
  -- what the channel of deliveries holds, and whether it is closed
  pub waiting : List D
  pub closed : Bool
  -- ctx.Done()
  pub cancelled : Bool
  -- the deliveries of the goroutines that run, and of those that have ended
  pub in_flight : List D
  pub finished : List D
  -- every delivery so far
  pub delivered : List D
  -- the rest of the system
  pub store : S

-- The start of `Run`, by whether `Consume` gives a channel.
unfoldable pub run : {D S : Type 0} → Bool → S → Pool D S
run consuming store = record {
  loop = elim consuming [ true ↦ selecting | false ↦ returned not_consuming ];
  waiting = [];
  closed = false;
  cancelled = false;
  in_flight = [];
  finished = [];
  delivered = [];
  store = store;
}

module _ {D S : Type 0} (concurrency : ℕ) (handle : D → S → S) where
  pub data Step (s : Pool D S) : Pool D S → Type 0 where
    -- the broker
    deliver :
        (d : D)
        → s.closed ≡ false
        → Step s (record s { waiting = s.waiting ++ d ∷ []; delivered = s.delivered ++ d ∷ [] })
    close : Step s (record s { closed = true })
    -- SIGINT or SIGTERM
    signal : Step s (record s { cancelled = true })
    -- the loop
    receive :
        (d : D) (ds : List D)
        → s.loop ≡ selecting
        → s.waiting ≡ d ∷ ds
        → Step s (record s { loop = holding d; waiting = ds })
    start :
        (d : D)
        → s.loop ≡ holding d
        → length s.in_flight < concurrency
        → Step s (record s { loop = selecting; in_flight = d ∷ s.in_flight })
    stop : s.loop ≡ selecting → s.cancelled ≡ true → Step s (record s { loop = returned shut_down })
    drained :
        s.loop ≡ selecting
        → s.waiting ≡ []
        → s.closed ≡ true
        → Step s (record s { loop = returned channel_closed })
    -- a goroutine
    finish :
        (ds es : List D) (d : D)
        → s.in_flight ≡ ds ++ d ∷ es
        → Step s (record s {
          in_flight = ds ++ es;
          finished = s.finished ++ d ∷ [];
          store = handle d s.store;
        })

  pub data Reach (s : Pool D S) : Pool D S → Type 0 where
    here : Reach s s
    next : {t u : Pool D S} → Reach s t → Step t u → Reach s u
