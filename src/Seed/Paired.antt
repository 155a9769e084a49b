-- ===== src/Seed/Paired.antt =====
-- The pairs that seedFriendships of cmd/bootstrap/cmd/seed.go draws.
use ffgif.Base.{
  ℕ, zero, suc, ◌+◌, ◌≡◌, ◌≢◌, refl, ap, ◌∙◌, inl, inr, true, false, ◌==◌, Bool-cases, some, List,
  [], ◌∷◌, ◌++◌, arith, All, All-append, Text, text_eq, text_eq_refl, any, any-append, length,
  Option-cases,
}
use ffgif.World.{External, Friendship}
use ffgif.Friend.Pairs.{IsOncePaired, IsOncePaired-append}
use ffgif.Friend.Repo.{joins}
use ffgif.Seed.Random.{Random, Place, int_n, get_elem?}
use ffgif.Seed.Users.{SeededUser}
use ffgif.Seed.Friends
use ffgif.Seed.Friends.{FriendshipRecord, Graph, no_pairs, pair_key}

-- The row of a record but for its id.
abbrev pub as_row : FriendshipRecord → Friendship
as_row r = record {
  id = 0;
  requester_id = r.requester_id;
  addressee_id = r.addressee_id;
  status = r.status;
  created_at = r.created_at;
  updated_at = 0;
}

abbrev pub rows : List FriendshipRecord → List Friendship
rows [] = []
rows (r ∷ rs) = as_row r ∷ rows rs

pub rows-append : (rs ss : List FriendshipRecord) → rows (rs ++ ss) ≡ rows rs ++ rows ss
rows-append [] ss = refl
rows-append (r ∷ rs) ss = ap (λ (t : List Friendship). as_row r ∷ t) (rows-append rs ss)

-- No two users of the list have one id.
abbrev pub AreDistinct : List SeededUser → Type 0
AreDistinct users =
    (i j : ℕ) (u v : SeededUser)
    → get_elem? users i ≡ some u
    → get_elem? users j ≡ some v
    → i ≢ j
    → u.id ≢ v.id

module _ (x : External) where
  abbrev IsKeyed : List Text → FriendshipRecord → Type 0
  IsKeyed set r = any (text_eq (pair_key x r.requester_id r.addressee_id)) set ≡ true

  abbrev Inv : Graph → Type 0
  Inv g = IsOncePaired (rows g.records) × All (IsKeyed g.pair_set) g.records

  -- A pair that is not in the set is joined by no record.
  unpaired :
      (a b : ℕ) (set : List Text) (rs : List FriendshipRecord)
      → Friends.is_paired x a b set ≡ false
      → All (IsKeyed set) rs
      → any (joins a b) (rows rs) ≡ false
  unfolding Friends.is_paired any joins
  unpaired a b set [] h keyed = refl
  unpaired a b set (r ∷ rs) h keyed = ground (arith, unpaired a b set rs h keyed.1)

  append-IsKeyed :
      (set more : List Text) (rs : List FriendshipRecord)
      → All (IsKeyed set) rs
      → All (IsKeyed (set ++ more)) rs
  append-IsKeyed set more [] h = tt
  append-IsKeyed set more (r ∷ rs) h = (
    ground (arith, any-append (text_eq (pair_key x r.requester_id r.addressee_id)) set more),
    append-IsKeyed set more rs h.1,
  )

  grow-Inv :
      (set : List Text) (rs : List FriendshipRecord) (r : FriendshipRecord)
      → r.requester_id ≢ r.addressee_id
      → Friends.is_paired x r.requester_id r.addressee_id set ≡ false
      → IsOncePaired (rows rs)
      → All (IsKeyed set) rs
      → IsOncePaired (rows (rs ++ r ∷ []))
        × All (IsKeyed (set ++ pair_key x r.requester_id r.addressee_id ∷ [])) (rs ++ r ∷ [])
  unfolding any
  grow-Inv set rs r ne new once keyed =
      let key = pair_key x r.requester_id r.addressee_id in
      (
        rw (rows-append rs (r ∷ []))
            (IsOncePaired-append (rows rs) (as_row r) once ne (unpaired _ _ set rs new keyed)),
        All-append (IsKeyed (set ++ key ∷ [])) rs (r ∷ []) (append-IsKeyed set (key ∷ []) rs keyed)
            (ground (arith, any-append (text_eq key) set (key ∷ []), text_eq_refl key), tt),
      )

  befriend-Inv :
      (now roll age a b : ℕ) (g : Graph)
      → a ≢ b
      → Friends.is_paired x a b g.pair_set ≡ false
      → Inv g
      → Inv (Friends.befriend x now roll age a b g)
  unfolding Friends.befriend
  befriend-Inv now roll age a b g ne new h = grow-Inv g.pair_set g.records _ ne new h.0 h.1

  module _ (rand : Random) (now : ℕ) (users : List SeededUser) (distinct : AreDistinct users) where
    meet-Inv :
        (idx : ℕ) (u : SeededUser) (f : ℕ) (target : SeededUser) (g : Graph)
        → u.id ≢ target.id
        → Inv g
        → Inv (Friends.meet x rand now users idx u f target g)
    unfolding Friends.meet
    meet-Inv idx u f target g ne h =
        elim (Bool-cases (Friends.is_paired x u.id target.id g.pair_set)) [
          | inl old ↦ rw old h
          | inr new ↦ rw new (befriend-Inv now _ _ u.id target.id g ne new h)
        ]

    turn-Inv :
        (idx : ℕ) (u : SeededUser) (f : ℕ) (g : Graph)
        → get_elem? users idx ≡ some u
        → Inv g
        → Inv (Friends.friend_turn x rand now users idx u f g)
    unfolding Friends.friend_turn
    turn-Inv idx u f g at h =
        let t = int_n (length users) (rand.draw Place.target idx f) in
        elim (Bool-cases (t == idx)) [
          | inl self ↦ rw self h
          | inr other ↦ elim (Option-cases (get_elem? users t)) [
            | inl out ↦ rw (other, out) h
            | inr (target, found) ↦
                rw (other, found)
                  (meet-Inv idx u f target g (distinct idx t u target at found (λ e. ground arith))
                    h)
          ]
        ]

    turns-Inv :
        (idx : ℕ) (u : SeededUser) (n : ℕ) (g : Graph)
        → get_elem? users idx ≡ some u
        → Inv g
        → Inv (Friends.friend_turns x rand now users idx u n g)
    unfolding Friends.friend_turns
    turns-Inv idx u zero g at h = h
    turns-Inv idx u (suc n) g at h = turn-Inv idx u n _ at (turns-Inv idx u n g at h)

    all-Inv :
        (idx : ℕ) (us : List SeededUser) (g : Graph)
        → ((k : ℕ) → get_elem? users (idx + k) ≡ get_elem? us k)
        → Inv g
        → Inv (Friends.befriend_all x rand now users idx us g)
    unfolding Friends.befriend_all
    all-Inv idx [] g at h = h
    all-Inv idx (u ∷ us) g at h =
        all-Inv (suc idx) us _ (λ k. moved idx u us k at)
          (turns-Inv idx u _ g (first idx u us at) h)
      where
        first :
            (idx : ℕ) (u : SeededUser) (us : List SeededUser)
            → ((k : ℕ) → get_elem? users (idx + k) ≡ get_elem? (u ∷ us) k)
            → get_elem? users idx ≡ some u
        first idx u us at = ap (λ (k : ℕ). get_elem? users k) (omega arith) ∙ at 0

        moved :
            (idx : ℕ) (u : SeededUser) (us : List SeededUser) (k : ℕ)
            → ((k : ℕ) → get_elem? users (idx + k) ≡ get_elem? (u ∷ us) k)
            → get_elem? users (suc idx + k) ≡ get_elem? us k
        moved idx u us k at = ap (λ (k : ℕ). get_elem? users k) (omega arith) ∙ at (suc k)

    -- The records join no two users twice and no user with himself.
    pub records-IsOncePaired :
        IsOncePaired (rows (Friends.befriend_all x rand now users 0 users no_pairs).records)
    records-IsOncePaired =
        (all-Inv 0 users no_pairs (λ k. ap (λ (k : ℕ). get_elem? users k) (omega arith)) (tt, tt)).0
