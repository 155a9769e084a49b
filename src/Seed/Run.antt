-- ===== src/Seed/Run.antt =====
-- cmd/bootstrap/cmd/seed.go, setupSeed, from the connection on: the password, then the tables in
-- their order. A failure ends it where it is. The upload of seed.gif, whose errors are only logged,
-- is left out.
use ffgif.Base.{ℕ, codes}
use ffgif.World.{Io, ◌>>=◌, ◌>>◌, map_err, wrap, External}
use ffgif.Pkg
use ffgif.Pkg.{Config}
use ffgif.Seed.Random.{Random}
use ffgif.Seed.Users.{seed_users_and_profiles}
use ffgif.Seed.Gifs.{seed_gifs, seed_quotas}
use ffgif.Seed.Friends.{seed_friendships}
use ffgif.Seed.Shares.{seed_shares, seed_share_tokens}

abbrev pub total_users : ℕ
total_users = 1000

unfoldable pub setup_seed : External → Config → Random → Io (Unit {0})
unfolding Pkg.generate_hash seed_users_and_profiles seed_gifs seed_quotas seed_friendships
    seed_shares seed_share_tokens
setup_seed x cfg rand = do
  pass_hash ← map_err wrap (Pkg.generate_hash x cfg (codes "Password123!"))
  users ← map_err wrap (seed_users_and_profiles x rand total_users pass_hash)
  made ← map_err wrap (seed_gifs x rand users)
  map_err wrap (seed_quotas users made.1)
  pairs ← map_err wrap (seed_friendships x rand users)
  map_err wrap (seed_shares x rand pairs made.0)
  map_err wrap (seed_share_tokens x rand made.0)
