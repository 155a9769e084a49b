-- ===== src/Friend/Invariant.antt =====
-- The calls of the friend service one after the other, with anything between them that leaves the
-- table `friendships` alone or only deletes rows of it.
use ffgif.Base.{◌≡◌, refl, Text, Option, List, ℕ, Bool, delete_where, arith, none, some}
use ffgif.World.{World, External, Friendship, ok, err, Result}
use ffgif.Friend.Service
use ffgif.Friend.Pairs.{
  IsOncePaired, IsOncePaired-append, IsOncePaired-delete_where, IsOncePaired-update_where,
}
use ffgif.Friend.Effects.{
  Sends, send_request-Sends, Accepts, accept-Accepts, Deletes, reject-Deletes, remove-Deletes,
  addressed, mark_accepted, held_by, without,
}

module _ (x : External) where
  -- One step of the system: a call that changes the table, or something else.
  pub data Step (w w' : World) : Type 0 where
    send : (s t : Text) → w' ≡ (Service.send_request x s t w).1 → Step w w'
    accept : (s t : Text) → w' ≡ (Service.accept x s t w).1 → Step w w'
    reject : (s t : Text) → w' ≡ (Service.reject x s t w).1 → Step w w'
    remove : (s t : Text) → w' ≡ (Service.remove x s t w).1 → Step w w'
    other : w'.db.friendships ≡ w.db.friendships → Step w w'
    -- as the erasure of a user does
    deletes :
        (p : Friendship → Bool) → w'.db.friendships ≡ delete_where p w.db.friendships → Step w w'

  pub data Reach (w : World) : World → Type 0 where
    here : Reach w w
    next : {u v : World} → Reach w u → Step u v → Reach w v

  abbrev IsKept : World → World → Type 0
  IsKept w w' = IsOncePaired w.db.friendships → IsOncePaired w'.db.friendships

  Sends-IsKept :
      (s t : Text) (w : World) (r : Result Friendship) (w' : World)
      → Sends x s t w (r, w')
      → IsKept w w'
  Sends-IsKept s t w (ok f) w' h k = ground (arith, IsOncePaired-append w.db.friendships f k)
  Sends-IsKept s t w (err e) w' h k = rw h k

  Accepts-IsKept :
      (s t : Text) (w : World) (r : Result Friendship) (w' : World)
      → Accepts x s t w (r, w')
      → IsKept w w'
  Accepts-IsKept s t w (ok f) w' h k = rw h.4 (
      IsOncePaired-update_where (addressed f.id f.addressee_id) (mark_accepted w.now) (λ g. refl)
        (λ g. refl) w.db.friendships k)
  Accepts-IsKept s t w (err e) w' h k = rw h k

  without-IsOncePaired :
      (i u : Option ℕ) (fs : List Friendship) → IsOncePaired fs → IsOncePaired (without i u fs)
  without-IsOncePaired (some i) (some u) fs k = IsOncePaired-delete_where (held_by i u) fs k
  without-IsOncePaired none u fs k = k
  without-IsOncePaired (some i) none fs k = k

  Deletes-IsKept :
      (s t : Text) (w : World) (r : Result (Unit {0})) (w' : World)
      → Deletes x s t w (r, w')
      → IsKept w w'
  Deletes-IsKept s t w (ok _) w' h k =
      rw h.2 (without-IsOncePaired (x.uuid_parse s) (x.uuid_parse t) w.db.friendships k)
  Deletes-IsKept s t w (err e) w' h k = rw h k

  Step-IsKept : (w w' : World) → Step w w' → IsKept w w'
  Step-IsKept w w' (send s t e) = rw e (Sends-IsKept s t w _ _ (send_request-Sends x s t w))
  Step-IsKept w w' (accept s t e) = rw e (Accepts-IsKept s t w _ _ (accept-Accepts x s t w))
  Step-IsKept w w' (reject s t e) = rw e (Deletes-IsKept s t w _ _ (reject-Deletes x s t w))
  Step-IsKept w w' (remove s t e) = rw e (Deletes-IsKept s t w _ _ (remove-Deletes x s t w))
  Step-IsKept w w' (other e) = λ k. rw e k
  Step-IsKept w w' (deletes p e) = λ k. rw e (IsOncePaired-delete_where p w.db.friendships k)

  -- Calls of the friend service that run one after the other, each as a whole and under any outage,
  -- with other steps between them that leave the table of friendships as it is or only delete rows of
  -- it, never join two users twice or a user with himself, if the table began so.
  pub Reach-IsOncePaired :
      (w w' : World) → Reach w w' → IsOncePaired w.db.friendships → IsOncePaired w'.db.friendships
  Reach-IsOncePaired w _ here k = k
  Reach-IsOncePaired w _ (next {u = u} {v = v} r st) k =
      Step-IsKept u v st (Reach-IsOncePaired w u r k)
