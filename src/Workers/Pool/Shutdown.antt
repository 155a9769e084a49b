-- ===== src/Workers/Pool/Shutdown.antt =====
-- The end of the loop: what a signal leaves undone. After the four loops have returned, `main` of
-- cmd/worker/main.go returns, and the process ends.
use ffgif.Base.{ℕ, ◌≤◌, ◌≡◌, refl, true, false, List, [], ◌∷◌, ◌++◌, arith, length, length-append}
use ffgif.Workers.Pool.{
  Pool, selecting, returned, shut_down, run, Step, deliver, close, signal, receive, start, stop,
  drained, finish, Reach, here, next, Return,
}

module _ {D S : Type 0} (concurrency : ℕ) (handle : D → S → S) where
  abbrev arrived : List D → List D
  arrived [] = []
  arrived (d ∷ ds) = arrived ds ++ d ∷ []

  -- The loop in its select, with a goroutine for each of the deliveries so far.
  abbrev busy : S → List D → Pool D S
  busy store ds = record {
    loop = selecting;
    waiting = [];
    closed = false;
    cancelled = false;
    in_flight = ds;
    finished = [];
    delivered = arrived ds;
    store = store;
  }

  filled :
      (store : S) (ds : List D)
      → length ds ≤ concurrency
      → Reach concurrency handle (run true store) (busy store ds)
  unfolding run
  filled store [] h = here
  filled store (d ∷ ds) h =
      next (next (next (filled store ds (omega arith)) (deliver d refl)) (receive d [] refl refl))
        (start d refl (omega arith))

  -- A signal does not wait for the handlers: for any deliveries, as many as there are slots at most,
  -- `Run` can return nil while all of their handlers are still running, and nothing has been
  -- done of what they are to do.
  pub signal-abandons :
      (store : S) (ds : List D)
      → length ds ≤ concurrency
      → (t : Pool D S) × Reach concurrency handle (run true store) t
        × (t.loop ≡ returned shut_down)
        × (t.in_flight ≡ ds)
        × (t.finished ≡ [])
        × (t.store ≡ store)
  signal-abandons store ds h = (
    record (busy store ds) { loop = returned shut_down; cancelled = true },
    next (next (filled store ds h) signal) (stop refl refl),
    refl,
    refl,
    refl,
    refl,
  )

  -- After the end: the loop never takes a delivery again, no handler starts.
  abbrev IsOver : Return → Pool D S → Pool D S → Type 0
  IsOver r s t =
      (t.loop ≡ returned r)
      × (length s.waiting ≤ length t.waiting)
      × (length t.in_flight ≤ length s.in_flight)

  Step-IsOver :
      (r : Return) (s t u : Pool D S) → Step concurrency handle t u → IsOver r s t → IsOver r s u
  Step-IsOver r s t u (deliver d o) h = (h.0, omega (arith, length-append t.waiting (d ∷ [])), h.2)
  Step-IsOver r s t u close h = h
  Step-IsOver r s t u signal h = h
  Step-IsOver r s t u (receive d ds e f) h = ground arith
  Step-IsOver r s t u (start d e free) h = ground arith
  Step-IsOver r s t u (stop e f) h = ground arith
  Step-IsOver r s t u (drained e f g) h = ground arith
  Step-IsOver r s t u (finish ds es d e) h =
      ground (arith, length-append ds es, length-append ds (d ∷ es))

  pub Reach-IsOver :
      (r : Return) (s t : Pool D S)
      → s.loop ≡ returned r
      → Reach concurrency handle s t
      → IsOver r s t
  Reach-IsOver r s _ e here = (e, omega arith, omega arith)
  Reach-IsOver r s u e (next {t = t} k st) = Step-IsOver r s t u st (Reach-IsOver r s t e k)
