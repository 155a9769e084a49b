-- ===== src/Seed/Friends.antt =====
-- cmd/bootstrap/cmd/seed.go, seedFriendships.
use ffgif.Base.{
  ℕ, zero, suc, ◌+◌, ◌-◌, ◌*◌, ltb, ◌==◌, Bool, ◌&&◌, ◌||◌, not, none, some, List, [], ◌∷◌, ◌++◌,
  Text, codes, text_eq, length, if◌then◌else◌, any,
}
use ffgif.World.{
  Io, pure, gets, ◌>>=◌, ◌>>◌, raise_if, modify_db, draw_uuid, External, sql_refused, Friendship,
  FriendStatus, pending, accepted,
}
use ffgif.Pkg.{hour}
use ffgif.Auth.Users.{has_id}
use ffgif.Seed.Random.{Random, Place, int_n, float_bits, get_elem?}
use ffgif.Seed.Batches.{batches, exec_all}
use ffgif.Seed.Users.{SeededUser}

pub record FriendPair : Type 0 where
  pub user_a : ℕ
  pub user_b : ℕ

pub record FriendshipRecord : Type 0 where
  pub requester_id : ℕ
  pub addressee_id : ℕ
  pub status : FriendStatus
  pub created_at : ℕ

-- The variables of the loops; a set is the list of its members.
pub record Graph : Type 0 where
  pub records : List FriendshipRecord
  pub pair_set : List Text
  pub accepted_pairs : List FriendPair

abbrev pub no_pairs : Graph
no_pairs = record { records = []; pair_set = []; accepted_pairs = [] }

module _ (x : External) where
  abbrev pub pair_key : ℕ → ℕ → Text
  pair_key a b = x.uuid_string a ++ (codes ":" ++ x.uuid_string b)

  -- `pairSet[key] || pairSet[revKey]`
  unfoldable pub is_paired : ℕ → ℕ → List Text → Bool
  unfolding text_eq
  is_paired a b set = any (text_eq (pair_key a b)) set || any (text_eq (pair_key b a)) set

  -- The end of a turn: 0.15 is 5404319552844595 / 2^55.
  unfoldable pub befriend : ℕ → ℕ → ℕ → ℕ → ℕ → Graph → Graph
  befriend now roll age a b g =
      let rejected = ltb (float_bits roll * 4) 5_404_319_552_844_595 in
      record {
        records =
            g.records
            ++ record {
              requester_id = a;
              addressee_id = b;
              status = if rejected then pending else accepted;
              created_at = now - int_n 1_440 age * hour;
            }
              ∷ [];
        pair_set = g.pair_set ++ pair_key a b ∷ [];
        accepted_pairs =
            if rejected
            then g.accepted_pairs
            else g.accepted_pairs ++ record { user_a = a; user_b = b } ∷ [];
      }

  module _ (rand : Random) (now : ℕ) (users : List SeededUser) where
    unfoldable pub meet : ℕ → SeededUser → ℕ → SeededUser → Graph → Graph
    unfolding is_paired befriend
    meet idx u f target g =
        if is_paired u.id target.id g.pair_set
        then g
        else befriend now (rand.draw Place.pending_roll idx f) (rand.draw Place.friend_age idx f)
            u.id target.id g

    -- The turn `f` of the inner loop, for the user at the index `idx`.
    unfoldable pub friend_turn : ℕ → SeededUser → ℕ → Graph → Graph
    unfolding meet
    friend_turn idx u f g =
        let target_idx = int_n (length users) (rand.draw Place.target idx f) in
        if target_idx == idx
        then g
        else elim (get_elem? users target_idx) [ none ↦ g | some target ↦ meet idx u f target g ]

    -- The first `n` turns.
    unfoldable pub friend_turns : ℕ → SeededUser → ℕ → Graph → Graph
    unfolding friend_turn
    friend_turns idx u zero g = g
    friend_turns idx u (suc n) g = friend_turn idx u n (friend_turns idx u n g)

    unfoldable pub num_friends : ℕ → ℕ
    num_friends idx = int_n 4 (rand.draw Place.num_friends idx 0) + 2

    -- The outer loop, from the index `idx` on.
    unfoldable pub befriend_all : ℕ → List SeededUser → Graph → Graph
    unfolding friend_turns num_friends
    befriend_all idx [] g = g
    befriend_all idx (u ∷ us) g = befriend_all (suc idx) us (friend_turns idx u (num_friends idx) g)

-- `on conflict (requester_id, addressee_id) do nothing`
unfoldable pub insert_record : FriendshipRecord → Io (Unit {0})
unfolding draw_uuid
insert_record r = do
  id ← draw_uuid
  now ← gets (λ w. w.now)
  db ← gets (λ w. w.db)
  raise_if
      (any (λ (f : Friendship). f.id == id) db.friendships
        || not (any (has_id r.requester_id) db.users)
        || not (any (has_id r.addressee_id) db.users)
        || r.requester_id == r.addressee_id)
      sql_refused
  let row : Friendship = record {
    id = id;
    requester_id = r.requester_id;
    addressee_id = r.addressee_id;
    status = r.status;
    created_at = r.created_at;
    updated_at = now;
  }
  let same =
      λ (f : Friendship). (f.requester_id == r.requester_id) && (f.addressee_id == r.addressee_id)
  modify_db (λ db. record db {
    friendships = if any same db.friendships then db.friendships else db.friendships ++ row ∷ [];
  })

unfoldable pub seed_friendships : External → Random → List SeededUser → Io (List FriendPair)
unfolding befriend_all insert_record batches exec_all
seed_friendships x rand users = do
  now ← gets (λ w. w.now)
  let g = befriend_all x rand now users 0 users no_pairs
  exec_all insert_record (batches 250 g.records)
  pure g.accepted_pairs
