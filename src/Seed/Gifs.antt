-- ===== src/Seed/Gifs.antt =====
-- cmd/bootstrap/cmd/seed.go, seedGifs and seedQuotas. Durations are hundredths of a second.
use ffgif.Base.{
  ℕ, zero, suc, ◌+◌, ◌-◌, ◌*◌, ◌/◌, ltb, ◌==◌, Bool, true, false, not, none, some, List, [], ◌∷◌,
  ◌++◌, Text, codes, length, take, if◌then◌else◌, any, find?, update_where,
}
use ffgif.World.{
  Io, pure, gets, ◌>>=◌, ◌>>◌, raise_if, modify_db, draw_uuid, next_serial, External, sql_refused,
  Gif, Quota,
}
use ffgif.Pkg.{second}
use ffgif.Auth.Users.{has_id}
use ffgif.Gif.Repo.{has_key}
use ffgif.User.Quotas.{is_of}
use ffgif.Seed.Random.{Random, Place, int_n, float_bits, get_or, decimal}
use ffgif.Seed.Names.{gif_adjectives, gif_nouns}
use ffgif.Seed.Batches.{batches, exec_all}
use ffgif.Seed.Users.{SeededUser}

pub record SeededGif : Type 0 where
  pub key : Text
  pub user_id : ℕ
  pub name : Text
  pub status : Text
  pub persist : Bool
  pub download : ℕ
  pub file_size_bytes : ℕ
  pub width : ℕ
  pub height : ℕ
  pub duration_seconds : ℕ
  pub is_public : Bool
  pub url : Text
  pub thumbnail_key : Text
  pub created_at : ℕ

-- An entry of the map of userStats.
pub record UserStats : Type 0 where
  pub user : ℕ
  pub gif_count : ℕ
  pub used_bytes : ℕ

abbrev pub seed_gif_size_bytes : ℕ
seed_gif_size_bytes = 3_120_532

abbrev pub shared_gif_object_key : Text
shared_gif_object_key = codes "seed.gif"

-- status, persist and is_public by the roll: 0.70 and 0.90 as the nearest fractions over 2^53.
unfoldable pub kind_of : ℕ → Text × (Bool × Bool)
kind_of k =
    if ltb k 6_305_039_478_318_694
    then (codes "private", (true, false))
    else if ltb k 8_106_479_329_266_893
    then (codes "public", (true, true))
    else (codes "recent", (false, false))

module _ (x : External) (rand : Random) where
  -- The GIF `g` of the user `i`, with the new uuid.
  unfoldable pub make_gif : ℕ → ℕ → SeededUser → ℕ → ℕ → SeededGif
  unfolding decimal kind_of
  make_gif now id u i g =
      let adj =
        get_or [] gif_adjectives (int_n (length gif_adjectives) (rand.draw Place.adjective i g)) in
      let noun = get_or [] gif_nouns (int_n (length gif_nouns) (rand.draw Place.noun i g)) in
      let key =
        x.uuid_string u.id ++ (codes "_" ++ (take 8 (x.uuid_string id) ++ codes "_output.gif")) in
      let kind = kind_of (float_bits (rand.draw Place.status_roll i g)) in
      let age = int_n ((now - u.created_at) / second) (rand.draw Place.after_user i g) in
      record {
        key = key;
        user_id = u.id;
        name = adj ++ (codes " " ++ (noun ++ (codes " #" ++ decimal (g + 1))));
        status = kind.0;
        persist = kind.1.0;
        download = int_n 85 (rand.draw Place.downloads i g);
        file_size_bytes = seed_gif_size_bytes;
        width = 480;
        height = 270;
        duration_seconds = 320;
        is_public = kind.1.1;
        url = key;
        thumbnail_key = shared_gif_object_key;
        created_at = u.created_at + age * second;
      }

  -- The last `n` of the `count` turns of the inner loop.
  unfoldable pub make_user_gifs : ℕ → SeededUser → ℕ → ℕ → ℕ → Io (List SeededGif)
  unfolding draw_uuid make_gif
  make_user_gifs now u i count zero = pure []
  make_user_gifs now u i count (suc n) = do
    id ← draw_uuid
    rest ← make_user_gifs now u i count n
    pure (make_gif now id u i (count - suc n) ∷ rest)

  unfoldable pub num_gifs : ℕ → ℕ
  num_gifs i = int_n 21 (rand.draw Place.num_gifs i 0) + 40

  unfoldable pub stats_for : ℕ → SeededUser → UserStats
  unfolding num_gifs
  stats_for i u = record {
    user = u.id;
    gif_count = num_gifs i;
    used_bytes = num_gifs i * seed_gif_size_bytes;
  }

  -- The outer loop from the user `i` on.
  unfoldable pub make_gifs : ℕ → ℕ → List SeededUser → Io (List SeededGif × List UserStats)
  unfolding make_user_gifs num_gifs stats_for
  make_gifs now i [] = pure ([], [])
  make_gifs now i (u ∷ us) = do
    gifs ← make_user_gifs now u i (num_gifs i) (num_gifs i)
    rest ← make_gifs now (suc i) us
    pure (gifs ++ rest.0, stats_for i u ∷ rest.1)

-- `on conflict (key) do nothing`
unfoldable pub insert_gif : SeededGif → Io (Unit {0})
insert_gif g = do
  now ← gets (λ w. w.now)
  db ← gets (λ w. w.db)
  raise_if (not (any (has_id g.user_id) db.users)) sql_refused
  let row : Gif = record {
    key = g.key;
    name = g.name;
    user_id = g.user_id;
    status = g.status;
    persist = g.persist;
    download = g.download;
    url = g.url;
    thumbnail_key = g.thumbnail_key;
    file_size_bytes = g.file_size_bytes;
    width = g.width;
    height = g.height;
    duration_seconds = g.duration_seconds;
    is_public = g.is_public;
    created_at = g.created_at;
    updated_at = now;
  }
  modify_db (λ db. record db {
    gifs = if any (has_key g.key) db.gifs then db.gifs else db.gifs ++ row ∷ [];
  })

unfoldable pub seed_gifs :
    External → Random → List SeededUser → Io (List SeededGif × List UserStats)
unfolding make_gifs insert_gif batches exec_all
seed_gifs x rand users = do
  now ← gets (λ w. w.now)
  made ← make_gifs x rand now 0 users
  exec_all insert_gif (batches 500 made.0)
  pure made

-- The entry of a user in the map; a user with no entry counts as one with nothing.
unfoldable pub stats_of : List UserStats → ℕ → ℕ × ℕ
stats_of stats user = elim (find? (λ (s : UserStats). s.user == user) stats) [
  | none ↦ (0, 0)
  | some s ↦ (s.used_bytes, s.gif_count)
]

-- `on conflict (user_id) do update set used_bytes = …, gif_count = …`
unfoldable pub insert_quota : List UserStats → SeededUser → Io (Unit {0})
unfolding stats_of next_serial
insert_quota stats u = do
  id ← next_serial
  db ← gets (λ w. w.db)
  raise_if (not (any (has_id u.id) db.users)) sql_refused
  let (used, count) = stats_of stats u.id
  let row : Quota = record {
    id = id;
    user_id = u.id;
    used_bytes = used;
    total_bytes = 1_073_741_824;
    gif_count = count;
    gif_limit = 100;
  }
  modify_db (λ db. record db {
    quotas =
        if any (is_of u.id) db.quotas
        then update_where (is_of u.id) (λ q. record q { used_bytes = used; gif_count = count })
            db.quotas
        else db.quotas ++ row ∷ [];
  })

unfoldable pub seed_quotas : List SeededUser → List UserStats → Io (Unit {0})
unfolding insert_quota batches exec_all
seed_quotas users stats = exec_all (insert_quota stats) (batches 250 users)
