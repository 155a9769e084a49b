-- ===== src/Friend/Listing.antt =====
-- Who is listed as a friend of whom.
use ffgif.Base.{
  ℕ, ◌≡◌, refl, Bool, true, ◌&&◌, some, List, [], ◌∷◌, arith, any, select, Text, ◌==◌, any-append,
  sym, ◌∙◌, Bool-cases, inl, inr,
}
use ffgif.World.{World, ok, External, NoOutage, User, Friendship, FriendResponse, accepted}
use ffgif.Friend.Repo
use ffgif.Friend.Service

-- The list has an entry for the user.
abbrev pub shows : ℕ → List FriendResponse → Bool
shows b = any (λ (r : FriendResponse). r.user_id == b)

abbrev pub is_user : ℕ → User → Bool
is_user b u = u.id == b

-- The row says that the two users are friends.
abbrev pub befriends : ℕ → ℕ → Friendship → Bool
befriends a b f = Repo.status_eq f.status accepted && Repo.joins a b f

shows-join_user :
    (users : List User) (id b : ℕ) (f : Friendship)
    → shows b (Repo.join_user users id f) ≡ (id == b && any (is_user id) users)
unfolding Repo.join_user any select
shows-join_user [] id b f = ground arith
shows-join_user (u ∷ users) id b f = ground (arith, shows-join_user users id b f)

module _ (users : List User) (a b : ℕ) where
  abbrev row_of : Friendship → List FriendResponse
  row_of f = Repo.join_user users (Repo.other_end a f) f

  shows-row :
      (f : Friendship)
      → any (is_user b) users ≡ true
      → (Repo.is_friend_row a f && shows b (row_of f)) ≡ befriends a b f
  unfolding Repo.is_friend_row Repo.other_end Repo.joins
  shows-row f h = ground (arith, shows-join_user users (Repo.other_end a f) b f)

  shows-join_all :
      (fs : List Friendship)
      → any (is_user b) users ≡ true
      → shows b (Repo.join_all row_of (select (Repo.is_friend_row a) fs)) ≡ any (befriends a b) fs
  unfolding any select Repo.join_all
  shows-join_all [] h = refl
  shows-join_all (f ∷ fs) h = elim (Bool-cases (Repo.is_friend_row a f)) [
    | inl e ↦ rw e (any-append _ (row_of f) _ ∙ ground (arith, shows-row f h, shows-join_all fs h))
    | inr e ↦ ground (arith, shows-row f h, shows-join_all fs h)
  ]

befriends_comm : (a b : ℕ) (fs : List Friendship) → any (befriends a b) fs ≡ any (befriends b a) fs
unfolding any Repo.joins
befriends_comm a b [] = refl
befriends_comm a b (f ∷ fs) = ground (arith, befriends_comm a b fs)

module _ (x : External) where
  -- While nothing outside fails, the friends of a user are exactly the users that an accepted row
  -- joins to it, whichever of the two asked.
  pub list_friends-shows :
      (s : Text) (a b : ℕ) (w : World)
      → NoOutage w
      → x.uuid_parse s ≡ some a
      → any (is_user b) w.db.users ≡ true
      → (l : List FriendResponse) × (Service.list_friends x s w).0 ≡ ok l
        × (shows b l ≡ any (befriends a b) w.db.friendships)
  unfolding Service.list_friends
  list_friends-shows s a b w up e h =
      (_, ground (arith, up w.calls), shows-join_all w.db.users a b w.db.friendships h)

  -- While nothing outside fails, friendship is mutual: of two users in the table `users`, one is
  -- in the other's list of friends exactly when the other is in his.
  pub list_friends_mutual :
      (s t : Text) (a b : ℕ) (w : World)
      → NoOutage w
      → x.uuid_parse s ≡ some a
      → x.uuid_parse t ≡ some b
      → any (is_user a) w.db.users ≡ true
      → any (is_user b) w.db.users ≡ true
      → (l m : List FriendResponse) × ((Service.list_friends x s w).0 ≡ ok l)
        × ((Service.list_friends x t w).0 ≡ ok m)
        × (shows b l ≡ shows a m)
  list_friends_mutual s t a b w up ea eb ha hb =
      let (l, el, sl) = list_friends-shows s a b w up ea hb in
      let (m, em, sm) = list_friends-shows t b a w up eb ha in
      (l, m, el, em, sl ∙ befriends_comm a b w.db.friendships ∙ sym sm)
