-- ===== src/Seed/Same.antt =====
-- The parts of cmd/bootstrap/cmd/seed.go that leave the table friendships alone.
use ffgif.Base.{ℕ, zero, suc, ◌+◌, ◌-◌, ◌≡◌, List, [], ◌∷◌, ◌++◌, arith, Text}
use ffgif.World.{
  World, Result, ok, err, Io, External, Friendship, attempt_lem, pure, ◌>>=◌, ◌>>◌, Db,
  ShareByToken,
}
use ffgif.World.Keeps.{Keeps, Keeps-bind}
use ffgif.Seed.Random.{Random}
use ffgif.Seed.Batches
use ffgif.Seed.Users
use ffgif.Seed.Users.{SeededUser}
use ffgif.Seed.Gifs
use ffgif.Seed.Gifs.{SeededGif, UserStats}
use ffgif.Seed.Shares

-- The calls that leave the table alone, whatever it holds.
abbrev pub Same : List Friendship → World → Type 0
Same fs w = w.db.friendships ≡ fs

module _ {A : Type 0} (fs : List Friendship) (insert : A → Io (Unit {0}))
    (one : (a : A) → Keeps (Same fs) (insert a)) where
  pub for_each-Same : (rows : List A) → Keeps (Same fs) (Batches.for_each insert rows)
  unfolding Batches.for_each
  for_each-Same [] w h = h
  for_each-Same (r ∷ rs) w h =
      Keeps-bind (Same fs) (insert r) (λ _. Batches.for_each insert rs) (one r)
        (λ _. for_each-Same rs) w h

  rolled-Same :
      (db : Db) (p : Result (Unit {0}) × World)
      → db.friendships ≡ fs
      → Same fs p.1
      → Same fs (Batches.all_or_none db p).1
  unfolding Batches.all_or_none
  rolled-Same db (ok _, v) h k = k
  rolled-Same db (err e, v) h k = h

  pub exec-Same : (rows : List A) → Keeps (Same fs) (Batches.exec insert rows)
  unfolding Batches.exec
  exec-Same rows w h =
      let w1 = record w { calls = w.calls + 1 } in
      attempt_lem (λ v. Batches.all_or_none v.db (Batches.for_each insert rows v)) w
        (λ p. Same fs p.1)
        (rolled-Same w1.db (Batches.for_each insert rows w1) h (for_each-Same rows w1 h)) (λ n. h)

  pub exec_all-Same : (bs : List (List A)) → Keeps (Same fs) (Batches.exec_all insert bs)
  unfolding Batches.exec_all
  exec_all-Same [] w h = h
  exec_all-Same (b ∷ bs) w h =
      Keeps-bind (Same fs) (Batches.exec insert b) (λ _. Batches.exec_all insert bs) (exec-Same b)
        (λ _. exec_all-Same bs) w h

module _ (x : External) (fs : List Friendship) where
  pub insert_user-Same :
      (hash : Text) (u : SeededUser) → Keeps (Same fs) (Users.insert_user x hash u)
  unfolding Users.insert_user
  insert_user-Same hash u w h = ground arith

  pub insert_profile-Same : (u : SeededUser) → Keeps (Same fs) (Users.insert_profile u)
  unfolding Users.insert_profile
  insert_profile-Same u w h = ground arith

  pub insert_gif-Same : (g : SeededGif) → Keeps (Same fs) (Gifs.insert_gif g)
  unfolding Gifs.insert_gif
  insert_gif-Same g w h = ground arith

  pub insert_quota-Same :
      (stats : List UserStats) (u : SeededUser) → Keeps (Same fs) (Gifs.insert_quota stats u)
  unfolding Gifs.insert_quota
  insert_quota-Same stats u w h = ground arith

  pub insert_share-Same : (s : Shares.ShareRecord) → Keeps (Same fs) (Shares.insert_share s)
  unfolding Shares.insert_share
  insert_share-Same s w h = ground arith

  pub insert_token-Same : (t : ShareByToken) → Keeps (Same fs) (Shares.insert_token t)
  unfolding Shares.insert_token
  insert_token-Same t w h = ground arith

  pub insert_users-Same :
      (hash : Text) (bs : List (List SeededUser)) → Keeps (Same fs) (Users.insert_users x hash bs)
  unfolding Users.insert_users
  insert_users-Same hash [] w h = h
  insert_users-Same hash (b ∷ bs) w h =
      let them = Batches.exec (Users.insert_user x hash) b in
      let theirs = Batches.exec Users.insert_profile b in
      Keeps-bind (Same fs) (them >> theirs) (λ _. Users.insert_users x hash bs)
        (Keeps-bind (Same fs) them (λ _. theirs)
          (exec-Same fs (Users.insert_user x hash) (insert_user-Same hash) b)
          (λ _. exec-Same fs Users.insert_profile insert_profile-Same b))
        (λ _. insert_users-Same hash bs) w h

  pub make_users-Same :
      (rand : Random) (now count n : ℕ) → Keeps (Same fs) (Users.make_users rand now count n)
  unfolding Users.make_users
  make_users-Same rand now count zero w h = h
  make_users-Same rand now count (suc n) w h =
      let rest =
        λ (id : ℕ) (us : List SeededUser). pure (Users.make_user rand now id (count - n) ∷ us) in
      Keeps-bind (Same fs) (Users.make_users rand now count n) (rest (w.uuids w.drawn))
        (make_users-Same rand now count n) (λ us v k. k) (record w { drawn = w.drawn + 1 }) h

  make_user_gifs-Same :
      (rand : Random) (now : ℕ) (u : SeededUser) (i count n : ℕ)
      → Keeps (Same fs) (Gifs.make_user_gifs x rand now u i count n)
  unfolding Gifs.make_user_gifs
  make_user_gifs-Same rand now u i count zero w h = h
  make_user_gifs-Same rand now u i count (suc n) w h =
      let rest = λ (id : ℕ) (gs : List SeededGif).
        pure (Gifs.make_gif x rand now id u i (count - suc n) ∷ gs) in
      Keeps-bind (Same fs) (Gifs.make_user_gifs x rand now u i count n) (rest (w.uuids w.drawn))
        (make_user_gifs-Same rand now u i count n) (λ us v k. k) (record w { drawn = w.drawn + 1 })
        h

  pub make_gifs-Same :
      (rand : Random) (now i : ℕ) (us : List SeededUser)
      → Keeps (Same fs) (Gifs.make_gifs x rand now i us)
  unfolding Gifs.make_gifs
  make_gifs-Same rand now i [] w h = h
  make_gifs-Same rand now i (u ∷ us) w h =
      let n = Gifs.num_gifs x rand i in
      let all = λ (gs : List SeededGif) (rest : List SeededGif × List UserStats).
        pure (gs ++ rest.0, Gifs.stats_for x rand i u ∷ rest.1) in
      Keeps-bind (Same fs) (Gifs.make_user_gifs x rand now u i n n)
        (λ gs. Gifs.make_gifs x rand now (suc i) us >>= all gs)
        (make_user_gifs-Same rand now u i n n)
        (λ gs.
          Keeps-bind (Same fs) (Gifs.make_gifs x rand now (suc i) us) (all gs)
            (make_gifs-Same rand now (suc i) us) (λ rest v k. k))
        w h
