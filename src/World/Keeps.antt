-- ===== src/World/Keeps.antt =====
-- Calls that keep what holds of the world, whether they succeed or fail.
use ffgif.Base.{◌≡◌, subst}
use ffgif.World.Monad.{Io, Result, ok, err, ◌>>=◌, catch, ignore, bind_lem}
use ffgif.World.State.{World}

module _ (P : World → Type 0) where
  abbrev pub Keeps : {A : Type 0} → Io A → Type 0
  Keeps m = (w : World) → P w → P (m w).1

  at : {A : Type 0} (m : Io A) (w v : World) (r : Result A) → m w ≡ (r, v) → P (m w).1 → P v
  at {A} m w v r e h = subst (λ (p : Result A × World). P p.1) e h

  pub Keeps-bind :
      {A B : Type 0} (m : Io A) (k : A → Io B) → Keeps m → ((a : A) → Keeps (k a)) → Keeps (m >>= k)
  Keeps-bind m k hm hk w h =
      bind_lem m k w (λ p. P p.1) (λ a v e. hk a v (at m w v (ok a) e (hm w h)))
        (λ x v e. at m w v (err x) e (hm w h))

  pub Keeps-catch : {A : Type 0} (m : Io A) → Keeps m → Keeps (catch m)
  Keeps-catch m hm w h = hm w h

  pub Keeps-ignore : {A : Type 0} (m : Io A) → Keeps m → Keeps (ignore m)
  Keeps-ignore m hm w h = hm w h
