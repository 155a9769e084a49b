-- ===== src/Workers/Pool/Progress.antt =====
-- What the loop and its goroutines can always still do, and what the end of the loop leaves undone.
use ffgif.Base.{
  ℕ, zero, suc, ◌+◌, ◌*◌, ◌<◌, ◌≡◌, refl, ◌∙◌, ◌⊎◌, inl, inr, Bool, List, [], ◌∷◌, ◌++◌, arith,
  length, countp,
}
use ffgif.Workers.Pool.{
  Pool, Loop, selecting, holding, returned, run, Step, receive, start, finish, Reach, here, next,
}
use ffgif.Workers.Pool.Slots.{held, Reach-IsSound, IsKept}

abbrev pub IsOpen : {D : Type 0} → Loop D → Type 0
IsOpen (returned _) = ⊥
IsOpen _ = Unit

module _ {D S : Type 0} where
  abbrev work : Pool D S → ℕ
  work s = 3 * length s.waiting + 2 * length (held s.loop) + length s.in_flight

  -- Nothing is left to do.
  abbrev pub IsDry : Pool D S → Type 0
  IsDry s = (s.loop ≡ selecting) × (s.waiting ≡ []) × (s.in_flight ≡ [])

module _ {D S : Type 0} (concurrency : ℕ) (handle : D → S → S) where
  all_finished :
      (p : D → Bool) (t s : Pool D S)
      → IsDry t
      → t.delivered ≡ s.delivered
      → IsKept p t
      → countp p t.finished ≡ countp p s.delivered
  all_finished p t s dry same kept = ground arith

  abbrev Works : Pool D S → Type 0
  Works s =
      (t : Pool D S) × Step concurrency handle s t
      × IsOpen t.loop
      × (work t < work s)
      × (t.delivered ≡ s.delivered)

  -- A goroutine that runs ends.
  ends : (s : Pool D S) (d : D) (ds : List D) → IsOpen s.loop → s.in_flight ≡ d ∷ ds → Works s
  ends s d ds o e = (
    record s { in_flight = ds; finished = s.finished ++ d ∷ []; store = handle d s.store },
    finish [] ds d e,
    o,
    ground arith,
    refl,
  )

  -- The step of a loop that has a delivery in its hand, or none.
  by_loop :
      (s : Pool D S) (l : Loop D) (ws fs : List D)
      → 0 < concurrency
      → s.loop ≡ l
      → s.waiting ≡ ws
      → s.in_flight ≡ fs
      → IsOpen l
      → IsDry s ⊎ Works s
  by_loop s selecting [] [] c e w f o = inl (e, w, f)
  by_loop s selecting (d ∷ ds) fs c e w f o =
      inr (record s { loop = holding d; waiting = ds }, receive d ds e w, tt, ground arith, refl)
  by_loop s selecting [] (d ∷ ds) c e w f o = inr (ends s d ds (rw e tt) f)
  by_loop s (holding d) ws [] c e w f o = inr (
    record s { loop = selecting; in_flight = d ∷ s.in_flight },
    start d e (rw f c),
    tt,
    ground arith,
    refl,
  )
  by_loop s (holding d) ws (g ∷ fs) c e w f o = inr (ends s g fs (rw e tt) f)
  by_loop s (returned r) ws fs c e w f o = absurd o

  -- A run of the loop and the goroutines alone that leaves nothing to do.
  abbrev Drains : Pool D S → Pool D S → Type 0
  Drains s u = (t : Pool D S) × Reach concurrency handle s t × IsDry t × (t.delivered ≡ u.delivered)

  run_dry :
      (n : ℕ) (s t : Pool D S)
      → 0 < concurrency
      → Reach concurrency handle s t
      → IsOpen t.loop
      → work t < n
      → Drains s t
  run_dry zero s t c r o h = absurd (omega arith)
  run_dry (suc n) s t c r o h = elim (by_loop t t.loop t.waiting t.in_flight c refl refl refl o) [
    | inl dry ↦ (t, r, dry, refl)
    | inr (u, st, o', less, same) ↦
        let (v, r', dry, same') = run_dry n s u c (next r st) o' (omega arith) in
        (v, r', dry, same' ∙ same)
  ]

  Reach-trans :
      (s t u : Pool D S)
      → Reach concurrency handle s t
      → Reach concurrency handle t u
      → Reach concurrency handle s u
  Reach-trans s t _ r here = r
  Reach-trans s t u r (next {t = v} r' st) = next (Reach-trans s t v r r') st

  -- The loop never gets stuck: with one slot at least, from every state that it reaches and in which
  -- it has not returned, the loop and its goroutines alone, with no help of the broker, can go on
  -- until every delivery that was made has been handled, as often as it was made, and the loop waits
  -- for the next.
  pub Reach-drains :
      (consuming : Bool) (store : S) (s : Pool D S)
      → 0 < concurrency
      → Reach concurrency handle (run consuming store) s
      → IsOpen s.loop
      → (t : Pool D S) × Reach concurrency handle s t
        × IsDry t
        × ((p : D → Bool) → countp p t.finished ≡ countp p s.delivered)
  Reach-drains consuming store s c r o =
      let (t, r', dry, same) = run_dry (suc (work s)) s s c here o (omega arith) in
      let v = Reach-IsSound concurrency handle consuming store t (Reach-trans _ s t r r') in
      (t, r', dry, λ p. all_finished p t s dry same (v.kept p))
