-- ===== src/World/Monad.antt =====
-- A call of the program: from the world to a result and the world that it leaves. What a call has
-- written stays written when it fails, unless a transaction takes it back.
use ffgif.Base.{ℕ, ◌+◌, Bool, none, some, [], ◌∷◌, ◌++◌, if◌then◌else◌, ◌≡◌, refl, ◌⊎◌, inl, inr}
use ffgif.World.Entities.{EmailMessage, VideoMessage, SaveVideoMessage}
use ffgif.World.Errors.{Error, driver}
use ffgif.World.State.{World, Db}

pub data Result (A : Type 0) : Type 0 where
  ok : A → Result A
  err : Error → Result A

abbrev pub Io : Type 0 → Type 0
Io A = World → Result A × World

module _ {A : Type 0} where
  abbrev pub pure : A → Io A
  pure a w = (ok a, w)

  abbrev pub raise : Error → Io A
  raise e w = (err e, w)

  abbrev pub gets : (World → A) → Io A
  gets f w = (ok (f w), w)

  abbrev pub of_result : Result A → Io A
  of_result r w = (r, w)

  -- A call whose error the caller looks at.
  abbrev pub catch : Io A → Io (Result A)
  catch m w = let (r, w') = m w in (ok r, w')

infixl 5 ◌>>=◌ ◌>>◌
abbrev pub ◌>>=◌ : {A B : Type 0} → Io A → (A → Io B) → Io B
◌>>=◌ m f w = let (r, w') = m w in elim r [ ok a ↦ f a w' | err e ↦ (err e, w') ]

abbrev pub ◌>>◌ : {A B : Type 0} → Io A → Io B → Io B
m >> k = m >>= λ _. k

-- `if err := m; err != nil { return f(err) }`
abbrev pub map_err : {A : Type 0} → (Error → Error) → Io A → Io A
map_err f m w = let (r, w') = m w in elim r [ ok a ↦ (ok a, w') | err e ↦ (err (f e), w') ]

abbrev pub raise_if : Bool → Error → Io (Unit {0})
raise_if b e w = (if b then err e else ok tt, w)

-- `_ = m`
abbrev pub ignore : {A : Type 0} → Io A → Io (Unit {0})
ignore m w = let (_, w') = m w in (ok tt, w')

-- One call to the outside. The schedule of the world says whether it goes through; what it does
-- then is `op`, whose own error is an answer of the database or of the cache.
unfoldable pub attempt : {A : Type 0} → Io A → Io A
attempt op w =
    let w' = record w { calls = w.calls + 1 } in
    elim (w.outage w.calls) [ none ↦ op w' | some n ↦ (err (driver n), w') ]

-- uuid.NewRandom, and `uuid_generate_v4()` of PostgreSQL
unfoldable pub draw_uuid : Io ℕ
draw_uuid w = (ok (w.uuids w.drawn), record w { drawn = w.drawn + 1 })

-- the next number of a `SERIAL` column
unfoldable pub next_serial : Io ℕ
next_serial w = (ok w.serial, record w { serial = w.serial + 1 })

abbrev pub modify_db : (Db → Db) → Io (Unit {0})
modify_db f w = (ok tt, record w { db = f w.db })

-- `queue.PublishEmail` (internal/infra/rabbitmq/publisher.go): the message joins the queue.
unfoldable pub publish_email : EmailMessage → Io (Unit {0})
unfolding attempt
publish_email msg = attempt (λ w. (ok tt, record w { emails = w.emails ++ msg ∷ [] }))

unfoldable pub publish_video : VideoMessage → Io (Unit {0})
unfolding attempt
publish_video msg = attempt (λ w. (ok tt, record w { videos = w.videos ++ msg ∷ [] }))

unfoldable pub publish_save_video : SaveVideoMessage → Io (Unit {0})
unfolding attempt
publish_save_video msg = attempt (λ w. (ok tt, record w { saves = w.saves ++ msg ∷ [] }))

unfoldable pub publish_retry_save_video : SaveVideoMessage → Io (Unit {0})
unfolding attempt
publish_retry_save_video msg =
    attempt (λ w. (ok tt, record w { save_retries = w.save_retries ++ msg ∷ [] }))

-- `txManager.With` and `txManager.WithRC`: an error of the body, of BEGIN or of COMMIT leaves the
-- tables as they were. The numbers drawn and what went to the cache or a queue is not taken back.
unfoldable pub with_tx : {A : Type 0} → Io A → Io A
unfolding attempt
with_tx body w =
    let (begun, w1) = attempt (pure tt) w in
    elim begun [
      | err e ↦ (err e, w1)
      | ok _ ↦
          let (r, w2) = body w1 in
          let back = record w2 { db = w.db } in
          elim r [
            | err e ↦ (err e, back)
            | ok a ↦
                let (committed, w3) = attempt (pure a) w2 in
                elim committed [ ok a' ↦ (ok a', w3) | err e ↦ (err e, record w3 { db = w.db }) ]
          ]
    ]

pub Result-cases :
    {A : Type 0} (r : Result A) → ((a : A) × (r ≡ ok a)) ⊎ ((e : Error) × (r ≡ err e))
Result-cases (ok a) = inl (a, refl)
Result-cases (err e) = inr (e, refl)

after :
    {A B : Type 0} (k : A → Io B) (Q : Result B × World → Type 0) (p : Result A × World)
    → ((a : A) (v : World) → p ≡ (ok a, v) → Q (k a v))
    → ((e : Error) (v : World) → p ≡ (err e, v) → Q (err e, v))
    → Q (elim p.0 [ ok a ↦ k a p.1 | err e ↦ (err e, p.1) ])
after k Q (ok a, v) f g = f a v refl
after k Q (err e, v) f g = g e v refl

-- What holds after a chain follows from its first call and what may come after it.
pub bind_lem :
    {A B : Type 0} (m : Io A) (k : A → Io B) (w : World) (Q : Result B × World → Type 0)
    → ((a : A) (v : World) → m w ≡ (ok a, v) → Q (k a v))
    → ((e : Error) (v : World) → m w ≡ (err e, v) → Q (err e, v))
    → Q ((m >>= k) w)
bind_lem m k w Q f g = after k Q (m w) f g

-- What holds after a call to the outside.
pub attempt_lem :
    {A : Type 0} (op : Io A) (w : World) (Q : Result A × World → Type 0)
    → Q (op (record w { calls = w.calls + 1 }))
    → ((n : ℕ) → Q (err (driver n), record w { calls = w.calls + 1 }))
    → Q (attempt op w)
unfolding attempt
attempt_lem op w Q f g =
    elim (w.outage w.calls)
      as (λ o. Q (elim o [
        | none ↦ op (record w { calls = w.calls + 1 })
        | some n ↦ (err (driver n), record w { calls = w.calls + 1 })
      ])) [ none ↦ f | some n ↦ g n ]

-- A change of the error.
pub map_err_lem :
    {A : Type 0} (f : Error → Error) (m : Io A) (w : World) (Q : Result A × World → Type 0)
    → ((e : Error) (v : World) → Q (err e, v) → Q (err (f e), v))
    → Q (m w)
    → Q (map_err f m w)
map_err_lem {A} f m w Q keep h = by_result (m w) h
  where
    by_result :
        (p : Result A × World)
        → Q p
        → Q (elim p.0 [ ok a ↦ (ok a, p.1) | err e ↦ (err (f e), p.1) ])
    by_result (ok a, v) h = h
    by_result (err e, v) h = keep e v h
