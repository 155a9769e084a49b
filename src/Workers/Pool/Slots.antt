-- ===== src/Workers/Pool/Slots.antt =====
-- What holds at any time of the loop with its goroutines: the bound on the handlers that run, and
-- where the deliveries are.
use ffgif.Base.{
  ℕ, ◌+◌, ◌≤◌, ◌≡◌, Bool, true, false, List, [], ◌∷◌, arith, length, length-append, countp,
  countp-append,
}
use ffgif.Workers.Pool.{
  Pool, Loop, selecting, holding, returned, run, Step, deliver, close, signal, receive, start, stop,
  drained, finish, Reach, here, next,
}

abbrev pub held : {D : Type 0} → Loop D → List D
held selecting = []
held (holding d) = d ∷ []
held (returned _) = []

module _ {D S : Type 0} where
  -- Every delivery, as often as it came, is in the channel, in the hand of the loop, with a goroutine,
  -- or has been handled.
  abbrev pub IsKept : (D → Bool) → Pool D S → Type 0
  IsKept p s =
      countp p s.delivered
      ≡ countp p s.waiting + countp p (held s.loop) + countp p s.in_flight + countp p s.finished

  -- No more handlers run than there are slots, and no delivery is lost or handled twice.
  pub record IsSound (concurrency : ℕ) (s : Pool D S) : Type 0 where
    pub bounded : length s.in_flight ≤ concurrency
    pub kept : (p : D → Bool) → IsKept p s

module _ {D S : Type 0} (concurrency : ℕ) (handle : D → S → S) where
  Step-bounded :
      (s t : Pool D S)
      → Step concurrency handle s t
      → length s.in_flight ≤ concurrency
      → length t.in_flight ≤ concurrency
  Step-bounded s t (deliver d o) h = h
  Step-bounded s t close h = h
  Step-bounded s t signal h = h
  Step-bounded s t (receive d ds e f) h = h
  Step-bounded s t (start d e free) h = omega arith
  Step-bounded s t (stop e f) h = h
  Step-bounded s t (drained e f g) h = h
  Step-bounded s t (finish ds es d e) h =
      ground (arith, length-append ds es, length-append ds (d ∷ es))

  Step-IsKept :
      (p : D → Bool) (s t : Pool D S) → Step concurrency handle s t → IsKept p s → IsKept p t
  Step-IsKept p s t (deliver d o) h =
      omega (arith, countp-append p s.waiting (d ∷ []), countp-append p s.delivered (d ∷ []))
  Step-IsKept p s t close h = h
  Step-IsKept p s t signal h = h
  Step-IsKept p s t (receive d ds e f) h = ground arith
  Step-IsKept p s t (start d e free) h = ground arith
  Step-IsKept p s t (stop e f) h = ground arith
  Step-IsKept p s t (drained e f g) h = ground arith
  Step-IsKept p s t (finish ds es d e) h = ground (
    arith,
    countp-append p ds es,
    countp-append p ds (d ∷ es),
    countp-append p s.finished (d ∷ []),
  )

  start-IsSound : (consuming : Bool) (store : S) → IsSound {D = D} concurrency (run consuming store)
  unfolding run
  start-IsSound true store = record { bounded = omega arith; kept = λ p. omega arith }
  start-IsSound false store = record { bounded = omega arith; kept = λ p. omega arith }

  -- However the actions of the loop, of the goroutines, of the broker and of the signal handler are
  -- interleaved, no more handlers run at once than `concurrency`, and every delivery is, as often
  -- as it was made, in the channel, in the hand of the loop, with a goroutine or among those that
  -- have been handled: none is lost within the process and none is handled twice.
  pub Reach-IsSound :
      (consuming : Bool) (store : S) (s : Pool D S)
      → Reach concurrency handle (run consuming store) s
      → IsSound concurrency s
  Reach-IsSound consuming store _ here = start-IsSound consuming store
  Reach-IsSound consuming store t (next {t = s} r st) =
      let v = Reach-IsSound consuming store s r in
      record {
        bounded = Step-bounded s t st v.bounded;
        kept = λ p. Step-IsKept p s t st (v.kept p);
      }
