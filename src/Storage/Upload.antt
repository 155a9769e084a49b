-- ===== src/Storage/Upload.antt =====
-- The retries of `storageRepo.Upload`.
use ffgif.Base.{ℕ, ◌+◌, ◌≡◌, ◌⊎◌, Bool, true, false, none, some, ◌∷◌, arith, Text}
use ffgif.World.{World, Result, ok, err}
use ffgif.Storage

-- Whether a call of that number fails.
abbrev pub fails : World → ℕ → Bool
fails w n = elim (w.outage n) [ none ↦ false | some e ↦ true ]

-- The outcomes of an upload, by its result.
abbrev pub Uploads : Text → World → Result (Unit {0}) × World → Type 0
Uploads key w (ok _, w') =
    (w'.objects ≡ key ∷ w.objects)
    × (((w'.calls ≡ w.calls + 1) × (w'.now ≡ w.now) × (fails w w.calls ≡ false))
        ⊎ ((w'.calls ≡ w.calls + 2) × (w'.now ≡ w.now + 100_000_000) × (fails w w.calls ≡ true))
        ⊎ ((w'.calls ≡ w.calls + 3)
            × (w'.now ≡ w.now + 300_000_000)
            × (fails w w.calls ≡ true)
            × (fails w (w.calls + 1) ≡ true)))
Uploads key w (err e, w') =
    (w'.objects ≡ w.objects)
    × (w'.calls ≡ w.calls + 3)
    × (w'.now ≡ w.now + 300_000_000)
    × (fails w w.calls ≡ true)
    × (fails w (w.calls + 1) ≡ true)
    × (fails w (w.calls + 2) ≡ true)

-- Under any outage, `Upload` makes one, two or three attempts, each after one that failed, with
-- waits of 100 ms and 200 ms in between; it succeeds with the first attempt that goes through,
-- having stored the object once, and fails only after three that failed, having stored nothing.
pub upload-Uploads : (key : Text) (w : World) → Uploads key w (Storage.upload key w)
unfolding Storage.upload
upload-Uploads key w = ground arith
