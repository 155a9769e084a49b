-- ===== src/Tests/Friend.antt =====
-- The theorems on friendships at concrete worlds.
use ffgif.Base.{◌≡◌, refl, List, [], ◌∷◌, arith, any, text_eq}
use ffgif.World.{World, ok, Friendship, FriendResponse, pending, accepted}
use ffgif.Friend.Service
use ffgif.Friend.Pairs.{IsOncePaired}
use ffgif.Friend.Invariant
use ffgif.Friend.Listing
use ffgif.Friend.Listing.{shows, befriends}
use ffgif.Friend.Race
use ffgif.Friend.Spec.{Requests, Agrees, Parts}
use ffgif.Friend.Refinement
use ffgif.Tests.Sample.{sample, tables, calm}

abbrev asked : Friendship
asked = record {
  id = 50;
  requester_id = 1;
  addressee_id = 2;
  status = pending;
  created_at = 0;
  updated_at = 0;
}

-- A world in which the two are friends.
abbrev joined : World
joined = record calm {
  db = record tables { friendships = record asked { status = accepted } ∷ [] };
}

abbrev after_request : World
after_request = (Service.send_request sample (1 ∷ []) (2 ∷ []) calm).1

Reach-IsOncePaired_example :
    IsOncePaired (Service.accept sample (100 ∷ []) (2 ∷ []) after_request).1.db.friendships
Reach-IsOncePaired_example =
    Invariant.Reach-IsOncePaired sample calm
      (Service.accept sample (100 ∷ []) (2 ∷ []) after_request).1
      (Invariant.next (Invariant.next Invariant.here (Invariant.send (1 ∷ []) (2 ∷ []) refl))
        (Invariant.accept (100 ∷ []) (2 ∷ []) refl))
      tt

list_friends_mutual_example :
    (l m : List FriendResponse) × ((Service.list_friends sample (1 ∷ []) joined).0 ≡ ok l)
    × ((Service.list_friends sample (2 ∷ []) joined).0 ≡ ok m)
    × (shows 2 l ≡ shows 1 m)
unfolding any
list_friends_mutual_example =
    Listing.list_friends_mutual sample (1 ∷ []) (2 ∷ []) 1 2 joined (λ n. refl) refl refl refl refl

both_requests-joined_twice_example :
    ((Race.both_requests sample (1 ∷ []) (2 ∷ []) calm).0
      ≡ ok (
        Race.new_row sample 1 2 (Race.looked sample calm),
        Race.new_row sample 2 1 (Race.added sample 1 2 (Race.looked sample calm)),
      ))
    × (¬ (IsOncePaired (Race.both_requests sample (1 ∷ []) (2 ∷ []) calm).1.db.friendships))
unfolding any text_eq
both_requests-joined_twice_example =
    Race.both_requests-joined_twice sample (1 ∷ []) (2 ∷ []) 1 2 calm (record {
      up = λ n. refl;
      first = refl;
      second = refl;
      other_text = refl;
      other_text_back = refl;
      distinct = omega arith;
      first_known = refl;
      second_known = refl;
      apart = refl;
      fresh = refl;
      fresh_next = refl;
      ids_differ = omega arith;
    })

-- The request has the id 1, and the second user accepts it or rejects it.
abbrev waiting : World
waiting = record calm { db = record tables { friendships = record asked { id = 1 } ∷ [] } }

calls-Moves_example :
    Requests sample
      (1 ∷ [])
      (2 ∷ [])
      1
      2
      waiting
      (Service.send_request sample (1 ∷ []) (2 ∷ []) waiting)
    × Agrees sample (1 ∷ []) (2 ∷ []) 1 2 waiting (Service.accept sample (1 ∷ []) (2 ∷ []) waiting)
    × Parts sample (1 ∷ []) (2 ∷ []) 1 2 waiting (Service.reject sample (1 ∷ []) (2 ∷ []) waiting)
    × Parts sample (1 ∷ []) (2 ∷ []) 1 2 waiting (Service.remove sample (1 ∷ []) (2 ∷ []) waiting)
unfolding any
calls-Moves_example =
    Refinement.calls-Moves sample (1 ∷ []) (2 ∷ []) 1 2 waiting ((λ e. ground arith), refl, tt)
