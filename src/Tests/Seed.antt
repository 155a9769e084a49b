-- ===== src/Tests/Seed.antt =====
-- The theorem on the seed at a concrete database.
use ffgif.Base.{◌+◌, ◌*◌, refl, [], ◌∷◌, arith}
use ffgif.World.{World}
use ffgif.Friend.Pairs.{IsOncePaired}
use ffgif.Seed.Random.{Random}
use ffgif.Seed.Run
use ffgif.Seed.Whole
use ffgif.Tests.Sample.{sample, config, calm}

abbrev dice : Random
dice = record { draw = λ p i j. i * 7 + j; token = λ i. i ∷ [] }

abbrev in_order : World
in_order = record calm { uuids = λ n. n + 3 }

setup_seed-IsOncePaired_example :
    IsOncePaired (Run.setup_seed sample config dice in_order).1.db.friendships
setup_seed-IsOncePaired_example =
    Whole.setup_seed-IsOncePaired sample config dice in_order (λ i j e. omega arith) refl
