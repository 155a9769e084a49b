-- ===== src/Http/Manager.antt =====
-- internal/transport/http/middleware/manager.go, for handlers of any type.
use ffgif.Base.{ℕ, zero, suc, ◌≡◌, refl, ap, ◌∙◌, Option, none, some, List, [], ◌∷◌, ◌++◌, length}

-- `middlewares[i]`
unfoldable pub get_elem? {ℓ} : {A : Type ℓ} → ℕ → List A → Option A
get_elem? i [] = none
get_elem? zero (a ∷ l) = some a
get_elem? (suc i) (a ∷ l) = get_elem? i l

abbrev pub apply_to {ℓ} : {A : Type ℓ} → A → Option (A → A) → A
apply_to next none = next
apply_to next (some f) = f next

module _ {ℓ} {A : Type ℓ} where
  -- The loop `for i := n - 1; i >= 0; i--`; an index is never out of range.
  unfoldable pub wrap_from : ℕ → List (A → A) → A → A
  unfolding get_elem?
  wrap_from zero ms next = next
  wrap_from (suc i) ms next = wrap_from i ms (apply_to next (get_elem? i ms))

  unfoldable pub with_ : A → List (A → A) → A
  unfolding wrap_from
  with_ next middlewares = wrap_from (length middlewares) middlewares next

  -- `WrapMux`, on the middlewares that `Use` has collected.
  unfoldable pub wrap_mux : List (A → A) → A → A
  unfolding wrap_from
  wrap_mux global next = wrap_from (length global) global next

  abbrev pub use_ : List (A → A) → List (A → A) → List (A → A)
  use_ global middlewares = global ++ middlewares

  -- Each one around what is right of it.
  unfoldable pub around : List (A → A) → A → A
  around [] next = next
  around (m ∷ ms) next = m (around ms next)

  wrap_from-cons :
      (i : ℕ) (m : A → A) (ms : List (A → A)) (next : A)
      → wrap_from (suc i) (m ∷ ms) next ≡ m (wrap_from i ms next)
  unfolding wrap_from
  wrap_from-cons zero m ms next = refl
  wrap_from-cons (suc i) m ms next = wrap_from-cons i m ms (apply_to next (get_elem? i ms))

  wrap_from-around : (ms : List (A → A)) (next : A) → wrap_from (length ms) ms next ≡ around ms next
  unfolding around wrap_from
  wrap_from-around [] next = refl
  wrap_from-around (m ∷ ms) next =
      wrap_from-cons (length ms) m ms next ∙ ap m (wrap_from-around ms next)

  around-append :
      (first more : List (A → A)) (next : A)
      → around (first ++ more) next ≡ around first (around more next)
  unfolding around
  around-append [] more next = refl
  around-append (m ∷ ms) more next = ap m (around-append ms more next)

  -- The loops of `With` and `WrapMux`, which go through the middlewares from the last one to the
  -- first, put the first one outermost: a request passes them in the order in which they are
  -- listed. What `Use` adds stands inside what it found.
  pub with_-around :
      (first more : List (A → A)) (next : A)
      → (with_ next first ≡ around first next)
        × (wrap_mux (use_ first more) next ≡ around first (around more next))
  unfolding with_ wrap_mux
  with_-around first more next = (
    wrap_from-around first next,
    wrap_from-around (first ++ more) next ∙ around-append first more next,
  )
