-- ===== src/Seed/Batches.antt =====
-- The loops of cmd/bootstrap/cmd/seed.go that insert records in batches, each batch with one
-- statement of many rows.
use ffgif.Base.{
  ℕ, zero, suc, ◌+◌, ◌-◌, ◌≤◌, ◌<◌, ◌≡◌, refl, sym, ap, ltb, ltb→lt, Bool-cases, inl, inr, List, [],
  ◌∷◌, ◌++◌, arith, length, take, drop, All, if◌then◌else◌,
}
use ffgif.World.{Db, World, Result, Io, ok, err, pure, attempt, ◌>>◌}

-- What a statement leaves that ends with a result, on tables as they were before.
unfoldable pub all_or_none : Db → Result (Unit {0}) × World → Result (Unit {0}) × World
all_or_none db (ok _, w) = (ok tt, w)
all_or_none db (err e, w) = (err e, record w { db = db })

module _ {A : Type 0} where
  -- `xs[i:j]`
  unfoldable pub slice : List A → ℕ → ℕ → List A
  slice xs i j = take (j - i) (drop i xs)

  -- `for ; i < len(xs); i += size`, with `end := i + size; if end > len(xs) { end = len(xs) }`
  unfoldable pub batches_from : ℕ → ℕ → List A → ℕ → List (List A)
  unfolding slice
  batches_from zero size xs i = []
  batches_from (suc fuel) size xs i =
      let end = if ltb (length xs) (i + size) then length xs else i + size in
      let rest = slice xs i end ∷ batches_from fuel size xs (i + size) in
      if ltb i (length xs) then rest else []

  -- One turn for each record is enough.
  unfoldable pub batches : ℕ → List A → List (List A)
  unfolding batches_from
  batches size xs = batches_from (length xs) size xs 0

  abbrev pub concat : List (List A) → List A
  concat [] = []
  concat (b ∷ bs) = b ++ concat bs

  -- The rows of one statement.
  unfoldable pub for_each : (A → Io (Unit {0})) → List A → Io (Unit {0})
  for_each insert [] = pure tt
  for_each insert (r ∷ rs) = insert r >> for_each insert rs

  -- `db.ExecContext` with the rows: all of them are written, or none.
  unfoldable pub exec : (A → Io (Unit {0})) → List A → Io (Unit {0})
  unfolding attempt for_each all_or_none
  exec insert rows = attempt λ w. all_or_none w.db (for_each insert rows w)

  unfoldable pub exec_all : (A → Io (Unit {0})) → List (List A) → Io (Unit {0})
  unfolding exec
  exec_all insert [] = pure tt
  exec_all insert (b ∷ bs) = exec insert b >> exec_all insert bs

  take_all : (n : ℕ) (xs : List A) → length xs ≤ n → take n xs ≡ xs
  take_all zero [] h = refl
  take_all zero (x ∷ xs) h = absurd (omega arith)
  take_all (suc n) [] h = refl
  take_all (suc n) (x ∷ xs) h = ap (λ (t : List A). x ∷ t) (take_all n xs (omega arith))

  take-append-drop : (n : ℕ) (xs : List A) → take n xs ++ drop n xs ≡ xs
  take-append-drop zero xs = refl
  take-append-drop (suc n) [] = refl
  take-append-drop (suc n) (x ∷ xs) = ap (λ (t : List A). x ∷ t) (take-append-drop n xs)

  length-drop : (n : ℕ) (xs : List A) → length (drop n xs) ≡ length xs - n
  length-drop zero xs = omega arith
  length-drop (suc n) [] = omega arith
  length-drop (suc n) (x ∷ xs) = omega (arith, length-drop n xs)

  drop_none : (n : ℕ) (xs : List A) → length xs ≤ n → drop n xs ≡ []
  drop_none zero [] h = refl
  drop_none zero (x ∷ xs) h = absurd (omega arith)
  drop_none (suc n) [] h = refl
  drop_none (suc n) (x ∷ xs) h = drop_none n xs (omega arith)

  drop_nil : (n : ℕ) → drop {A = A} n [] ≡ []
  drop_nil zero = refl
  drop_nil (suc n) = refl

  drop-drop : (i n : ℕ) (xs : List A) → drop n (drop i xs) ≡ drop (i + n) xs
  drop-drop zero n xs = let e : 0 + n ≡ n = omega arith in rw e
  drop-drop (suc i) n [] = rw (drop_nil n, drop_nil (suc i + n))
  drop-drop (suc i) n (x ∷ xs) =
      let e : suc i + n ≡ suc (i + n) = omega arith in rw e (drop-drop i n xs)

  append_nil : (l : List A) → l ++ [] ≡ l
  append_nil [] = refl
  append_nil (a ∷ l) = ap (λ (t : List A). a ∷ t) (append_nil l)

  -- The last batch, and one before it.
  last_slice :
      (xs : List A) (i size : ℕ)
      → length xs < i + size
      → slice xs i (length xs) ++ drop (i + size) xs ≡ drop i xs
  unfolding slice
  last_slice xs i size h =
      rw
        (
          take_all (length xs - i) (drop i xs) (omega (arith, length-drop i xs)),
          drop_none (i + size) xs (omega arith),
        )
        (append_nil (drop i xs))

  next_slice : (xs : List A) (i size : ℕ) → slice xs i (i + size) ++ drop (i + size) xs ≡ drop i xs
  unfolding slice
  next_slice xs i size =
      let e : i + size - i ≡ size = omega arith in
      rw (e, ← (drop-drop i size xs)) (take-append-drop size (drop i xs))

  concat-from :
      (fuel size : ℕ) (xs : List A) (i : ℕ)
      → 0 < size
      → length xs ≤ fuel + i
      → concat (batches_from fuel size xs i) ≡ drop i xs
  unfolding batches_from
  concat-from zero size xs i pos h = sym (drop_none i xs (omega arith))
  concat-from (suc fuel) size xs i pos h =
      let ih = concat-from fuel size xs (i + size) pos (omega arith) in
      elim (Bool-cases (ltb i (length xs))) [
        | inr over ↦ rw over (sym (drop_none i xs (ground arith)))
        | inl more ↦ rw more (elim (Bool-cases (ltb (length xs) (i + size))) [
          | inl last ↦ rw (last, ih) (last_slice xs i size (ltb→lt _ _ last))
          | inr full ↦ rw (full, ih) (next_slice xs i size)
        ])
      ]

  length-take-le : (n : ℕ) (xs : List A) → length (take n xs) ≤ n
  length-take-le zero xs = omega arith
  length-take-le (suc n) [] = omega arith
  length-take-le (suc n) (x ∷ xs) = omega (arith, length-take-le n xs)

  bounded :
      (fuel size : ℕ) (xs : List A) (i : ℕ)
      → All (λ b. length b ≤ size) (batches_from fuel size xs i)
  unfolding batches_from slice
  bounded zero size xs i = tt
  bounded (suc fuel) size xs i = elim (Bool-cases (ltb i (length xs))) [
    | inr over ↦ rw over tt
    | inl more ↦ rw more (
      ground (
        arith,
        length-take-le (length xs - i) (drop i xs),
        length-take-le (i + size - i) (drop i xs),
      ),
      bounded fuel size xs (i + size),
    )
  ]

  -- The loop that cuts the records into batches ends, after one turn for each record at most, and
  -- leaves none out: one after the other the batches are the records in their order, and none is
  -- larger than the size, if that is not zero.
  pub batches-concat :
      (size : ℕ) (xs : List A)
      → 0 < size
      → (concat (batches size xs) ≡ xs) × All (λ b. length b ≤ size) (batches size xs)
  unfolding batches
  batches-concat size xs pos =
      (concat-from (length xs) size xs 0 pos (omega arith), bounded (length xs) size xs 0)
