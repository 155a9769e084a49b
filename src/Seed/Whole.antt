-- ===== src/Seed/Whole.antt =====
-- The table friendships after the whole of setupSeed of cmd/bootstrap/cmd/seed.go.
use ffgif.Base.{
  ℕ, zero, suc, ◌+◌, ◌-◌, ◌≡◌, refl, sym, ap, ◌∙◌, subst, List, [], ◌∷◌, arith, Text, some, codes,
}
use ffgif.World.{
  World, Result, ok, err, Io, External, Friendship, bind_lem, pure, ◌>>=◌, ◌>>◌, map_err, wrap,
  map_err_lem,
}
use ffgif.World.Keeps.{Keeps, Keeps-bind}
use ffgif.Pkg
use ffgif.Pkg.{Config}
use ffgif.Friend.Pairs.{IsOncePaired}
use ffgif.Seed.Random.{Random, get_elem?}
use ffgif.Seed.Batches
use ffgif.Seed.Users
use ffgif.Seed.Users.{SeededUser}
use ffgif.Seed.Gifs
use ffgif.Seed.Gifs.{SeededGif, UserStats}
use ffgif.Seed.Friends
use ffgif.Seed.Friends.{FriendPair}
use ffgif.Seed.Shares
use ffgif.Seed.Run
use ffgif.Seed.Paired.{AreDistinct}
use ffgif.Seed.Befriended.{seed_friendships-IsOncePaired}
use ffgif.Seed.Same.{
  Same, exec_all-Same, insert_users-Same, make_users-Same, make_gifs-Same, insert_gif-Same,
  insert_quota-Same, insert_share-Same, insert_token-Same,
}

-- The ids are drawn one after the other.
abbrev Numbered : (ℕ → ℕ) → ℕ → List SeededUser → Type 0
Numbered f b [] = Unit
Numbered f b (u ∷ us) = (u.id ≡ f b) × Numbered f (b + 1) us

Numbered-at :
    (f : ℕ → ℕ) (b k : ℕ) (us : List SeededUser) (u : SeededUser)
    → Numbered f b us
    → get_elem? us k ≡ some u
    → u.id ≡ f (b + k)
Numbered-at f b k [] u h e = cc
Numbered-at f b zero (v ∷ us) u h e = let z : b + 0 ≡ b = omega arith in rw z (ground arith)
Numbered-at f b (suc k) (v ∷ us) u h e = Numbered-at f (b + 1) k us u h.1 e ∙ ap f (omega arith)

Numbered-AreDistinct :
    (f : ℕ → ℕ) (b : ℕ) (us : List SeededUser)
    → ((i j : ℕ) → f i ≡ f j → i ≡ j)
    → Numbered f b us
    → AreDistinct us
Numbered-AreDistinct f b us inj h i j u v at at' ne same =
    let e =
      inj (b + i) (b + j)
        (sym (Numbered-at f b i us u h at) ∙ (same ∙ Numbered-at f b j us v h at')) in
    ne (omega arith)

abbrev Returns : {A : Type 0} → (A → Type 0) → Result A × World → Type 0
Returns P (ok a, w) = P a
Returns P (err e, w) = Unit

module _ (rand : Random) where
  make_users-Numbered :
      (now count n : ℕ) (w : World)
      → Returns (Numbered w.uuids w.drawn) (Users.make_users rand now count n w)
  unfolding Users.make_users Users.make_user
  make_users-Numbered now count zero w = tt
  make_users-Numbered now count (suc n) w =
      let w1 = record w { drawn = w.drawn + 1 } in
      let rest = λ (us : List SeededUser).
        pure (Users.make_user rand now (w.uuids w.drawn) (count - n) ∷ us) in
      bind_lem (Users.make_users rand now count n) rest w1 (Returns (Numbered w.uuids w.drawn))
        (λ us v e. (
          refl,
          subst (Returns (Numbered w.uuids (w.drawn + 1))) e (make_users-Numbered now count n w1),
        ))
        (λ x v e. tt)

module _ (x : External) (rand : Random) where
  abbrev Fresh : Result (List SeededUser) × World → Type 0
  Fresh p = Same [] p.1 × Returns AreDistinct p

  users-Fresh :
      (count : ℕ) (hash : Text) (w : World)
      → ((i j : ℕ) → w.uuids i ≡ w.uuids j → i ≡ j)
      → Same [] w
      → Fresh (Users.seed_users_and_profiles x rand count hash w)
  unfolding Users.seed_users_and_profiles
  users-Fresh count hash w inj h =
      let rest =
        λ (us : List SeededUser). Users.insert_users x hash (Batches.batches 250 us) >> pure us in
      bind_lem (Users.make_users rand w.now count count) rest w Fresh
        (λ us v e.
          let here =
            subst (λ (p : Result (List SeededUser) × World). Same [] p.1) e
              (make_users-Same x [] rand w.now count count w h) in
          let distinct = Numbered-AreDistinct w.uuids w.drawn us inj (
            subst (Returns (Numbered w.uuids w.drawn)) e
              (make_users-Numbered rand w.now count count w)) in
          bind_lem (Users.insert_users x hash (Batches.batches 250 us)) (λ _. pure us) v Fresh
            (λ a u e'. (
              subst (λ (p : Result (Unit {0}) × World). Same [] p.1) e'
                  (insert_users-Same x [] hash (Batches.batches 250 us) v here),
              distinct,
            ))
            (λ y u e'. (
              subst (λ (p : Result (Unit {0}) × World). Same [] p.1) e'
                  (insert_users-Same x [] hash (Batches.batches 250 us) v here),
              tt,
            )))
        (λ y v e. (
          subst (λ (p : Result (List SeededUser) × World). Same [] p.1) e
              (make_users-Same x [] rand w.now count count w h),
          tt,
        ))

  gifs-Same :
      (fs : List Friendship) (us : List SeededUser) → Keeps (Same fs) (Gifs.seed_gifs x rand us)
  unfolding Gifs.seed_gifs
  gifs-Same fs us w h =
      Keeps-bind (Same fs) (Gifs.make_gifs x rand w.now 0 us)
        (λ made. Batches.exec_all Gifs.insert_gif (Batches.batches 500 made.0) >> pure made)
        (make_gifs-Same x fs rand w.now 0 us)
        (λ made.
          Keeps-bind (Same fs) (Batches.exec_all Gifs.insert_gif (Batches.batches 500 made.0))
            (λ _. pure made)
            (exec_all-Same fs Gifs.insert_gif (insert_gif-Same x fs) (Batches.batches 500 made.0))
            (λ _ v k. k))
        w h

  shares-Same :
      (fs : List Friendship) (ps : List FriendPair) (gs : List SeededGif)
      → Keeps (Same fs) (Shares.seed_shares x rand ps gs)
  unfolding Shares.seed_shares
  shares-Same fs ps gs w h = exec_all-Same fs Shares.insert_share (insert_share-Same x fs) _ w h

  tokens-Same :
      (fs : List Friendship) (gs : List SeededGif)
      → Keeps (Same fs) (Shares.seed_share_tokens x rand gs)
  unfolding Shares.seed_share_tokens
  tokens-Same fs gs w h = exec_all-Same fs Shares.insert_token (insert_token-Same x fs) _ w h

abbrev IsPaired : World → Type 0
IsPaired w = IsOncePaired w.db.friendships

-- What leaves the table alone keeps the invariant, also behind a change of the error.
kept :
    {A : Type 0} (m : Io A)
    → ((fs : List Friendship) → Keeps (Same fs) m)
    → Keeps IsPaired (map_err wrap m)
kept m same w h =
    map_err_lem wrap m w (λ p. IsPaired p.1) (λ e v k. k)
      (subst IsOncePaired (sym (same w.db.friendships w refl)) h)

empty_kept : {A : Type 0} (m : Io A) → Keeps (Same []) m → Keeps (Same []) (map_err wrap m)
empty_kept m same w h = map_err_lem wrap m w (λ p. Same [] p.1) (λ e v k. k) (same w h)

empty-IsPaired : (w : World) → Same [] w → IsPaired w
empty-IsPaired w h = rw h tt

-- The next stage, after one that leaves the table empty.
stage :
    {A B : Type 0} (m : Io A) (k : A → Io B)
    → Keeps (Same []) m
    → ((a : A) (v : World) → Same [] v → IsPaired (k a v).1)
    → (w : World) → Same [] w
    → IsPaired ((m >>= k) w).1
stage {A} m k same next w h =
    let at = λ (r : Result A) (v : World) (e : m w ≡ (r, v)).
      subst (λ (p : Result A × World). Same [] p.1) e (same w h) in
    bind_lem m k w (λ p. IsPaired p.1) (λ a v e. next a v (at (ok a) v e))
      (λ y v e. empty-IsPaired v (at (err y) v e))

module _ (x : External) (cfg : Config) (rand : Random) where
  abbrev with_shares : List SeededGif → List FriendPair → Io (Unit {0})
  with_shares gs ps =
      map_err wrap (Shares.seed_shares x rand ps gs)
      >> map_err wrap (Shares.seed_share_tokens x rand gs)

  abbrev with_friends : List SeededUser → List SeededGif → Io (Unit {0})
  with_friends us gs = map_err wrap (Friends.seed_friendships x rand us) >>= λ ps. with_shares gs ps

  abbrev with_gifs : List SeededUser → Io (Unit {0})
  with_gifs us =
      map_err wrap (Gifs.seed_gifs x rand us) >>= λ (made : List SeededGif × List UserStats).
      map_err wrap (Gifs.seed_quotas us made.1) >> with_friends us made.0

  friends-IsPaired :
      (us : List SeededUser) (gs : List SeededGif) (w : World)
      → AreDistinct us
      → Same [] w
      → IsPaired (with_friends us gs w).1
  friends-IsPaired us gs w distinct h =
      let m = Friends.seed_friendships x rand us in
      let done =
        map_err_lem wrap m w (λ p. IsPaired p.1) (λ e v k. k)
          (seed_friendships-IsOncePaired x rand us w distinct h) in
      let at = λ (r : Result (List FriendPair)) (v : World) (e : map_err wrap m w ≡ (r, v)).
        subst (λ (p : Result (List FriendPair) × World). IsPaired p.1) e done in
      bind_lem (map_err wrap m) (λ ps. with_shares gs ps) w (λ p. IsPaired p.1)
        (λ ps v e.
          Keeps-bind IsPaired (map_err wrap (Shares.seed_shares x rand ps gs))
            (λ _. map_err wrap (Shares.seed_share_tokens x rand gs))
            (kept (Shares.seed_shares x rand ps gs) (λ fs. shares-Same x rand fs ps gs))
            (λ _. kept (Shares.seed_share_tokens x rand gs) (λ fs. tokens-Same x rand fs gs)) v
            (at (ok ps) v e))
        (λ y v e. at (err y) v e)

  quotas-Same :
      (us : List SeededUser) (stats : List UserStats) → Keeps (Same []) (Gifs.seed_quotas us stats)
  unfolding Gifs.seed_quotas
  quotas-Same us stats w h =
      exec_all-Same [] (Gifs.insert_quota stats) (insert_quota-Same x [] stats) _ w h

  gifs-IsPaired :
      (us : List SeededUser) (w : World) → AreDistinct us → Same [] w → IsPaired (with_gifs us w).1
  gifs-IsPaired us w distinct h =
      stage (map_err wrap (Gifs.seed_gifs x rand us))
        (λ (made : List SeededGif × List UserStats).
          map_err wrap (Gifs.seed_quotas us made.1) >> with_friends us made.0)
        (empty_kept (Gifs.seed_gifs x rand us) (gifs-Same x rand [] us))
        (λ made v k.
          stage (map_err wrap (Gifs.seed_quotas us made.1)) (λ _. with_friends us made.0)
            (empty_kept (Gifs.seed_quotas us made.1) (quotas-Same us made.1))
            (λ _ u l. friends-IsPaired us made.0 u distinct l) v k)
        w h

  abbrev Hashed : World → Result Text × World → Type 0
  Hashed w p = Same [] p.1 × (p.1.uuids ≡ w.uuids)

  hash-Hashed :
      (w : World) → Same [] w → Hashed w (Pkg.generate_hash x cfg (codes "Password123!") w)
  unfolding Pkg.generate_hash
  hash-Hashed w h = ground arith

  users-IsPaired :
      (hash : Text) (w : World)
      → ((i j : ℕ) → w.uuids i ≡ w.uuids j → i ≡ j)
      → Same [] w
      → IsPaired
          ((map_err wrap (Users.seed_users_and_profiles x rand 1000 hash) >>= λ us. with_gifs us)
            w).1
  users-IsPaired hash w inj h =
      let m = Users.seed_users_and_profiles x rand 1000 hash in
      let done =
        map_err_lem wrap m w (Fresh x rand) (λ e v k. k) (users-Fresh x rand 1000 hash w inj h) in
      let at = λ (r : Result (List SeededUser)) (v : World) (e : map_err wrap m w ≡ (r, v)).
        subst (Fresh x rand) e done in
      bind_lem (map_err wrap m) (λ us. with_gifs us) w (λ p. IsPaired p.1)
        (λ us v e. gifs-IsPaired us v (at (ok us) v e).1 (at (ok us) v e).0)
        (λ y v e. empty-IsPaired v (at (err y) v e).0)

  -- The demo data meets the invariant that the friend service keeps: on tables with no friendship,
  -- and with uuids of which none is drawn twice, `bootstrap seed`, whatever it draws, and whether it
  -- gets through or fails anywhere under way, leaves no two users joined twice and no user joined
  -- with himself.
  pub setup_seed-IsOncePaired :
      (w : World)
      → ((i j : ℕ) → w.uuids i ≡ w.uuids j → i ≡ j)
      → w.db.friendships ≡ []
      → IsOncePaired (Run.setup_seed x cfg rand w).1.db.friendships
  unfolding Run.setup_seed
  setup_seed-IsOncePaired w inj h =
      let m = Pkg.generate_hash x cfg (codes "Password123!") in
      let k = λ (hash : Text).
        map_err wrap (Users.seed_users_and_profiles x rand 1000 hash) >>= λ us. with_gifs us in
      let done = map_err_lem wrap m w (Hashed w) (λ e v k. k) (hash-Hashed w h) in
      let at =
        λ (r : Result Text) (v : World) (e : map_err wrap m w ≡ (r, v)). subst (Hashed w) e done in
      bind_lem (map_err wrap m) k w (λ p. IsPaired p.1)
        (λ hash v e.
          let (same, uuids) = at (ok hash) v e in
          users-IsPaired hash v
            (subst (λ (f : ℕ → ℕ). (i j : ℕ) → f i ≡ f j → i ≡ j) (sym uuids) inj) same)
        (λ y v e. empty-IsPaired v (at (err y) v e).0)
