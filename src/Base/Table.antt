-- ===== src/Base/Table.antt =====
-- A table is the list of its rows. A query selects by a test on the row.
use mathlib.Core.Path.{◌≡◌, refl, subst}
use mathlib.Core.Logic.{inl, inr}
use mathlib.Core.Bool.{Bool, true, false, ◌||◌}
use mathlib.Core.Option.{Option, none, some}
use mathlib.Core.List.{List, [], ◌∷◌, ◌++◌}
use native.Mathlib.Omega.{arith}
use ffgif.Base.Tests.{if◌then◌else◌, Bool-cases}
use ffgif.Base.Lists.{All}

module _ {ℓ} {A : Type ℓ} where
  -- The first row that passes the test.
  unfoldable pub find? : (A → Bool) → List A → Option A
  find? p [] = none
  find? p (x ∷ xs) = if p x then some x else find? p xs

  unfoldable pub any : (A → Bool) → List A → Bool
  any p [] = false
  any p (x ∷ xs) = p x || any p xs

  -- The rows that pass the test, in order.
  unfoldable pub select : (A → Bool) → List A → List A
  select p [] = []
  select p (x ∷ xs) = if p x then x ∷ select p xs else select p xs

  -- `delete from … where p`
  unfoldable pub delete_where : (A → Bool) → List A → List A
  delete_where p [] = []
  delete_where p (x ∷ xs) = if p x then delete_where p xs else x ∷ delete_where p xs

  -- `update … set f where p`
  unfoldable pub update_where : (A → Bool) → (A → A) → List A → List A
  update_where p f [] = []
  update_where p f (x ∷ xs) = (if p x then f x else x) ∷ update_where p f xs

  pub find?-sound : (p : A → Bool) (xs : List A) (a : A) → find? p xs ≡ some a → p a ≡ true
  unfolding find?
  find?-sound p [] a h = cc
  find?-sound p (x ∷ xs) a h = ground (arith, find?-sound p xs a)

  pub find?-append :
      (p : A → Bool) (xs ys : List A) → find? p xs ≡ none → find? p (xs ++ ys) ≡ find? p ys
  unfolding find?
  find?-append p [] ys h = refl
  find?-append p (x ∷ xs) ys h = ground (arith, find?-append p xs ys)

  pub find?-append_found :
      (p : A → Bool) (xs ys : List A) (a : A) → find? p xs ≡ some a → find? p (xs ++ ys) ≡ some a
  unfolding find?
  find?-append_found p [] ys a h = cc
  find?-append_found p (x ∷ xs) ys a h = ground (arith, find?-append_found p xs ys a)

  pub any-find? : (p : A → Bool) (xs : List A) → find? p xs ≡ none → any p xs ≡ false
  unfolding find? any
  any-find? p [] h = refl
  any-find? p (x ∷ xs) h = ground (arith, any-find? p xs)

  pub find?-any : (p : A → Bool) (xs : List A) → any p xs ≡ false → find? p xs ≡ none
  unfolding find? any
  find?-any p [] h = refl
  find?-any p (x ∷ xs) h = ground (arith, find?-any p xs)

  pub any-of_find? : (p : A → Bool) (xs : List A) (a : A) → find? p xs ≡ some a → any p xs ≡ true
  unfolding find? any
  any-of_find? p [] a h = cc
  any-of_find? p (x ∷ xs) a h = ground (arith, any-of_find? p xs a)

  pub any-append : (p : A → Bool) (xs ys : List A) → any p (xs ++ ys) ≡ (any p xs || any p ys)
  unfolding any
  any-append p [] ys = refl
  any-append p (x ∷ xs) ys = ground (arith, any-append p xs ys)

  pub find?-delete_where : (p : A → Bool) (xs : List A) → find? p (delete_where p xs) ≡ none
  unfolding find? delete_where
  find?-delete_where p [] = refl
  find?-delete_where p (x ∷ xs) = ground (arith, find?-delete_where p xs)

  -- A deletion takes nothing from a query whose rows it spares.
  pub find?-delete_where_ne :
      (p q : A → Bool) (xs : List A)
      → ((x : A) → q x ≡ true → p x ≡ false)
      → find? q (delete_where p xs) ≡ find? q xs
  unfolding find? delete_where
  find?-delete_where_ne p q [] h = refl
  find?-delete_where_ne p q (x ∷ xs) h = ground (arith, find?-delete_where_ne p q xs h, h x)

  -- What a deletion leaves was there before.
  pub find?-delete_where_sub :
      (p q : A → Bool) (xs : List A) → find? q xs ≡ none → find? q (delete_where p xs) ≡ none
  unfolding find? delete_where
  find?-delete_where_sub p q [] h = refl
  find?-delete_where_sub p q (x ∷ xs) h = ground (arith, find?-delete_where_sub p q xs)

  -- An update that the query does not see maps what the query finds.
  pub find?-update_where :
      (p q : A → Bool) (f : A → A) (xs : List A) (a : A)
      → ((x : A) → q (f x) ≡ q x)
      → find? q xs ≡ some a
      → find? q (update_where p f xs) ≡ some (if p a then f a else a)
  unfolding find? update_where
  find?-update_where p q f [] a same h = cc
  find?-update_where p q f (x ∷ xs) a same h =
      ground (arith, find?-update_where p q f xs a same, same x, same a)

  pub find?-update_where-none :
      (p q : A → Bool) (f : A → A) (xs : List A)
      → ((x : A) → q (f x) ≡ q x)
      → find? q xs ≡ none
      → find? q (update_where p f xs) ≡ none
  unfolding find? update_where
  find?-update_where-none p q f [] same h = refl
  find?-update_where-none p q f (x ∷ xs) same h =
      ground (arith, find?-update_where-none p q f xs same, same x)

  -- An update that no row asks for changes nothing.
  pub update_where-none :
      (p : A → Bool) (f : A → A) (xs : List A) → find? p xs ≡ none → update_where p f xs ≡ xs
  unfolding find? update_where
  update_where-none p f [] h = refl
  update_where-none p f (x ∷ xs) h = ground (arith, update_where-none p f xs)

  pub All-delete_where {κ} :
      (P : A → Type κ) (p : A → Bool) (xs : List A) → All P xs → All P (delete_where p xs)
  unfolding delete_where
  All-delete_where P p [] h = tt
  All-delete_where P p (x ∷ xs) h = elim (Bool-cases (p x)) [
    | inl e ↦ rw e (All-delete_where P p xs h.1)
    | inr e ↦ rw e (h.0, All-delete_where P p xs h.1)
  ]

  pub All-update_where {κ} :
      (P : A → Type κ) (p : A → Bool) (f : A → A) (xs : List A)
      → ((x : A) → P x → P (f x))
      → All P xs
      → All P (update_where p f xs)
  unfolding update_where
  All-update_where P p f [] keep h = tt
  All-update_where P p f (x ∷ xs) keep h = elim (Bool-cases (p x)) [
    | inl e ↦ rw e (keep x h.0, All-update_where P p f xs keep h.1)
    | inr e ↦ rw e (h.0, All-update_where P p f xs keep h.1)
  ]

  pub All-find? {κ} :
      (P : A → Type κ) (p : A → Bool) (xs : List A) (a : A) → All P xs → find? p xs ≡ some a → P a
  unfolding find?
  All-find? P p [] a h e = cc
  All-find? P p (x ∷ xs) a h e = elim (Bool-cases (p x)) [
    | inl t ↦ subst P (first t) h.0
    | inr t ↦ All-find? P p xs a h.1 (rest t)
  ]
    where
      first : p x ≡ true → x ≡ a
      first t = ground arith

      rest : p x ≡ false → find? p xs ≡ some a
      rest t = ground arith
