-- ===== src/Seed/Befriended.antt =====
-- The table friendships after seedFriendships of cmd/bootstrap/cmd/seed.go.
use ffgif.Base.{
  ◌+◌, ◌≡◌, refl, sym, ap, subst, ◌⊎◌, inl, inr, List, [], ◌∷◌, ◌++◌, arith, any, any-append,
}
use ffgif.World.{World, Result, ok, err, External, Friendship, bind_lem, attempt_lem, pure}
use ffgif.Friend.Pairs.{IsOncePaired}
use ffgif.Friend.Repo.{joins}
use ffgif.Seed.Random.{Random}
use ffgif.Seed.Batches
use ffgif.Seed.Batches.{concat, batches-concat}
use ffgif.Seed.Users.{SeededUser}
use ffgif.Seed.Friends
use ffgif.Seed.Friends.{FriendshipRecord, no_pairs}
use ffgif.Seed.Paired.{AreDistinct, as_row, rows, records-IsOncePaired}

IsOncePaired-prefix : (t s : List Friendship) → IsOncePaired (t ++ s) → IsOncePaired t
unfolding any
IsOncePaired-prefix [] s h = tt
IsOncePaired-prefix (f ∷ t) s h =
    ground
      (arith, IsOncePaired-prefix t s h.2, any-append (joins f.requester_id f.addressee_id) t s)

IsOncePaired-skip :
    (t : List Friendship) (f : Friendship) (s : List Friendship)
    → IsOncePaired (t ++ f ∷ s)
    → IsOncePaired (t ++ s)
unfolding any
IsOncePaired-skip [] f s h = h.2
IsOncePaired-skip (g ∷ t) f s h = ground (
  arith,
  IsOncePaired-skip t f s h.2,
  any-append (joins g.requester_id g.addressee_id) t s,
  any-append (joins g.requester_id g.addressee_id) t (f ∷ s),
)

-- A row for another with the same ends.
IsOncePaired-swap :
    (t : List Friendship) (f g : Friendship) (s : List Friendship)
    → f.requester_id ≡ g.requester_id
    → f.addressee_id ≡ g.addressee_id
    → IsOncePaired (t ++ f ∷ s)
    → IsOncePaired ((t ++ g ∷ []) ++ s)
unfolding any joins
IsOncePaired-swap [] f g s e d h = ground arith
IsOncePaired-swap (i ∷ t) f g s e d h = ground (
  arith,
  IsOncePaired-swap t f g s e d h.2,
  any-append (joins i.requester_id i.addressee_id) t (f ∷ s),
  any-append (joins i.requester_id i.addressee_id) (t ++ g ∷ []) s,
  any-append (joins i.requester_id i.addressee_id) t (g ∷ []),
)

-- The rows that are there and those that are to come.
abbrev Ready : World → List FriendshipRecord → Type 0
Ready w rs = IsOncePaired (w.db.friendships ++ rows rs)

row_of : FriendshipRecord → World → Friendship
row_of r w = record (as_row r) { id = w.uuids w.drawn; updated_at = w.now }

abbrev Inserts : FriendshipRecord → World → Result (Unit {0}) × World → Type 0
Inserts r w (ok _, v) =
    (v.db.friendships ≡ w.db.friendships) ⊎ (v.db.friendships ≡ w.db.friendships ++ row_of r w ∷ [])
Inserts r w (err e, v) = Unit

insert-Inserts : (r : FriendshipRecord) (w : World) → Inserts r w (Friends.insert_record r w)
unfolding Friends.insert_record row_of
insert-Inserts r w = ground arith

abbrev After : List FriendshipRecord → Result (Unit {0}) × World → Type 0
After rs (ok _, v) = Ready v rs
After rs (err e, v) = Unit

inserted :
    (r : FriendshipRecord) (rs : List FriendshipRecord) (w : World) (p : Result (Unit {0}) × World)
    → Ready w (r ∷ rs)
    → Inserts r w p
    → After rs p
unfolding row_of
inserted r rs w (err e, v) h i = tt
inserted r rs w (ok _, v) h (inl same) =
    rw same (IsOncePaired-skip w.db.friendships (as_row r) (rows rs) h)
inserted r rs w (ok _, v) h (inr more) =
    rw more (IsOncePaired-swap w.db.friendships (as_row r) (row_of r w) (rows rs) refl refl h)

each-After :
    (b rs : List FriendshipRecord) (w : World)
    → Ready w (b ++ rs)
    → After rs (Batches.for_each Friends.insert_record b w)
unfolding Batches.for_each
each-After [] rs w h = h
each-After (r ∷ b) rs w h =
    bind_lem (Friends.insert_record r) (λ _. Batches.for_each Friends.insert_record b) w (After rs)
      (λ a v e.
        each-After b rs v
          (subst (After (b ++ rs)) e (inserted r (b ++ rs) w _ h (insert-Inserts r w))))
      (λ x v e. tt)

-- After a statement: the invariant, and what is needed for the records that are left.
abbrev Holds : List FriendshipRecord → Result (Unit {0}) × World → Type 0
Holds rs p = IsOncePaired p.1.db.friendships × After rs p

rolled-Holds :
    (rs : List FriendshipRecord) (w : World) (p : Result (Unit {0}) × World)
    → IsOncePaired w.db.friendships
    → After rs p
    → Holds rs (Batches.all_or_none w.db p)
unfolding Batches.all_or_none
rolled-Holds rs w (ok _, v) h a = (IsOncePaired-prefix v.db.friendships (rows rs) a, a)
rolled-Holds rs w (err e, v) h a = (h, tt)

exec-Holds :
    (b rs : List FriendshipRecord) (w : World)
    → Ready w (b ++ rs)
    → Holds rs (Batches.exec Friends.insert_record b w)
unfolding Batches.exec
exec-Holds b rs w h =
    let now = IsOncePaired-prefix w.db.friendships (rows (b ++ rs)) h in
    let w1 = record w { calls = w.calls + 1 } in
    attempt_lem (λ v. Batches.all_or_none v.db (Batches.for_each Friends.insert_record b v)) w
      (Holds rs)
      (rolled-Holds rs w1 (Batches.for_each Friends.insert_record b w1) now (each-After b rs w1 h))
      (λ n. (now, tt))

exec_all-IsOncePaired :
    (bs : List (List FriendshipRecord)) (w : World)
    → Ready w (concat bs)
    → IsOncePaired (Batches.exec_all Friends.insert_record bs w).1.db.friendships
unfolding Batches.exec_all
exec_all-IsOncePaired [] w h = IsOncePaired-prefix w.db.friendships [] h
exec_all-IsOncePaired (b ∷ bs) w h =
    let done = exec-Holds b (concat bs) w h in
    bind_lem (Batches.exec Friends.insert_record b) (λ _. Batches.exec_all Friends.insert_record bs)
      w (λ p. IsOncePaired p.1.db.friendships)
      (λ a v e. exec_all-IsOncePaired bs v (subst (Holds (concat bs)) e done).1)
      (λ x v e. (subst (Holds (concat bs)) e done).0)

module _ (x : External) (rand : Random) where
  -- The seed keeps the invariant of the friendships: in a database with no friendships, for users
  -- with different ids and whatever is drawn, `seedFriendships` joins no two users twice and no user
  -- with himself, also when a statement fails under way.
  pub seed_friendships-IsOncePaired :
      (users : List SeededUser) (w : World)
      → AreDistinct users
      → w.db.friendships ≡ []
      → IsOncePaired (Friends.seed_friendships x rand users w).1.db.friendships
  unfolding Friends.seed_friendships
  seed_friendships-IsOncePaired users w distinct empty =
      let g = Friends.befriend_all x rand w.now users 0 users no_pairs in
      let bs = Batches.batches 250 g.records in
      let whole = batches-concat 250 g.records (omega arith) in
      let once = records-IsOncePaired x rand w.now users distinct in
      let done = exec_all-IsOncePaired bs w (
        subst IsOncePaired (ap (λ (t : List Friendship). t ++ rows (concat bs)) (sym empty))
          (subst (λ rs. IsOncePaired (rows rs)) (sym (whole.0)) once)) in
      bind_lem (Batches.exec_all Friends.insert_record bs) (λ _. pure g.accepted_pairs) w
        (λ p. IsOncePaired p.1.db.friendships)
        (λ a v e. subst (λ (p : Result (Unit {0}) × World). IsOncePaired p.1.db.friendships) e done)
        (λ y v e. subst (λ (p : Result (Unit {0}) × World). IsOncePaired p.1.db.friendships) e done)
