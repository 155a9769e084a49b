-- ===== src/Friend/Pairs.antt =====
-- The invariant of the table `friendships` that `SendRequest` is to keep: no row joins a user with
-- himself, and two users are joined by at most one row, whichever of them asked.
use ffgif.Base.{
  ℕ, ◌≡◌, ◌≢◌, refl, Bool, false, List, [], ◌∷◌, ◌++◌, arith, any, delete_where, update_where,
  any-append,
}
use ffgif.World.{Friendship}
use ffgif.Friend.Repo.{joins}

abbrev pub IsOncePaired : List Friendship → Type 0
IsOncePaired [] = Unit
IsOncePaired (f ∷ fs) =
    (f.requester_id ≢ f.addressee_id)
    × (any (joins f.requester_id f.addressee_id) fs ≡ false)
    × IsOncePaired fs

joins_comm :
    (f g : Friendship)
    → joins f.requester_id f.addressee_id g ≡ joins g.requester_id g.addressee_id f
unfolding joins
joins_comm f g = ground arith

pub IsOncePaired-append :
    (fs : List Friendship) (f : Friendship)
    → IsOncePaired fs
    → f.requester_id ≢ f.addressee_id
    → any (joins f.requester_id f.addressee_id) fs ≡ false
    → IsOncePaired (fs ++ f ∷ [])
unfolding any
IsOncePaired-append [] f h d e = ground arith
IsOncePaired-append (g ∷ fs) f h d e = ground (
  arith,
  IsOncePaired-append fs f h.2 d,
  joins_comm f g,
  any-append (joins g.requester_id g.addressee_id) fs (f ∷ []),
)

any-delete_where :
    (p q : Friendship → Bool) (fs : List Friendship)
    → any q fs ≡ false
    → any q (delete_where p fs) ≡ false
unfolding any delete_where
any-delete_where p q [] h = refl
any-delete_where p q (f ∷ fs) h = ground (arith, any-delete_where p q fs)

pub IsOncePaired-delete_where :
    (p : Friendship → Bool) (fs : List Friendship)
    → IsOncePaired fs
    → IsOncePaired (delete_where p fs)
unfolding delete_where
IsOncePaired-delete_where p [] h = tt
IsOncePaired-delete_where p (f ∷ fs) h = ground (
  arith,
  IsOncePaired-delete_where p fs h.2,
  any-delete_where p (joins f.requester_id f.addressee_id) fs,
)

-- An update of the columns that say nothing of the two ends.
module _ (p : Friendship → Bool) (set : Friendship → Friendship)
    (same_requester : (f : Friendship) → (set f).requester_id ≡ f.requester_id)
    (same_addressee : (f : Friendship) → (set f).addressee_id ≡ f.addressee_id) where
  any-joins-update_where :
      (a b : ℕ) (fs : List Friendship)
      → any (joins a b) (update_where p set fs) ≡ any (joins a b) fs
  unfolding any update_where joins
  any-joins-update_where a b [] = refl
  any-joins-update_where a b (f ∷ fs) =
      ground (arith, any-joins-update_where a b fs, same_requester f, same_addressee f)

  pub IsOncePaired-update_where :
      (fs : List Friendship) → IsOncePaired fs → IsOncePaired (update_where p set fs)
  unfolding update_where
  IsOncePaired-update_where [] h = tt
  IsOncePaired-update_where (f ∷ fs) h = ground (
    arith,
    IsOncePaired-update_where fs h.2,
    any-joins-update_where f.requester_id f.addressee_id fs,
    same_requester f,
    same_addressee f,
  )
