-- ===== src/Friend/Repo.antt =====
-- internal/infra/postgres/friend_repo.go over the table of
-- migrations/000014_create_friendships_table.up.sql: every method is one statement. User and row ids come as texts, which
-- PostgreSQL casts to uuids.
use ffgif.Base.{
  ℕ, ◌==◌, Bool, true, false, ◌&&◌, ◌||◌, not, List, [], ◌∷◌, ◌++◌, map, Text, if◌then◌else◌, find?,
  any, select, delete_where, update_where,
}
use ffgif.World.{
  Db, Io, ok, err, pure, gets, ◌>>=◌, ◌>>◌, modify_db, attempt, draw_uuid, External, cast_uuid,
  one_row, sql_refused, User, Friendship, FriendStatus, pending, accepted, blocked, FriendResponse,
}

-- `status` is compared as a text; these are the texts that the column admits.
unfoldable pub status_eq : FriendStatus → FriendStatus → Bool
status_eq pending pending = true
status_eq accepted accepted = true
status_eq blocked blocked = true
status_eq _ _ = false

-- `(requester_id = a and addressee_id = b) or (requester_id = b and addressee_id = a)`
unfoldable pub joins : ℕ → ℕ → Friendship → Bool
joins a b f =
    (f.requester_id == a && f.addressee_id == b) || (f.requester_id == b && f.addressee_id == a)

-- What the constraints of the table refuse: the primary key, the two references, the check that
-- the ends differ, and the unique pair.
unfoldable pub insert_refused : Db → Friendship → Bool
insert_refused db f =
    any (λ g. g.id == f.id) db.friendships
    || not (any (λ (u : User). u.id == f.requester_id) db.users)
    || not (any (λ (u : User). u.id == f.addressee_id) db.users)
    || f.requester_id == f.addressee_id
    || any (λ g. g.requester_id == f.requester_id && g.addressee_id == f.addressee_id)
        db.friendships

unfoldable pub insert_friendship : Friendship → Io Friendship
unfolding insert_refused
insert_friendship f w =
    if insert_refused w.db f
    then (err sql_refused, w)
    else (ok f, record w { db = record w.db { friendships = w.db.friendships ++ f ∷ [] } })

-- The inner join with `users`: a row whose user is not there gives nothing.
unfoldable pub join_user : List User → ℕ → Friendship → List FriendResponse
join_user users id f =
    map
      (λ (u : User). record {
        user_id = u.id;
        username = u.username;
        fullname = u.fullname;
        status = f.status;
        created_at = f.created_at;
      })
      (select (λ u. u.id == id) users)

unfoldable pub join_all : (Friendship → List FriendResponse) → List Friendship → List FriendResponse
join_all row [] = []
join_all row (f ∷ fs) = row f ++ join_all row fs

-- `case when requester_id = u then addressee_id else requester_id end`
unfoldable pub other_end : ℕ → Friendship → ℕ
other_end u f = if f.requester_id == u then f.addressee_id else f.requester_id

-- `where (requester_id = u or addressee_id = u) and status = 'accepted'`
unfoldable pub is_friend_row : ℕ → Friendship → Bool
unfolding status_eq
is_friend_row u f = (f.requester_id == u || f.addressee_id == u) && status_eq f.status accepted

module _ (x : External) where
  unfoldable pub create : Text → Text → Io Friendship
  unfolding attempt cast_uuid draw_uuid insert_friendship
  create requester addressee = attempt do
    r ← cast_uuid x requester
    a ← cast_uuid x addressee
    id ← draw_uuid
    now ← gets (λ w. w.now)
    insert_friendship (record {
      id = id;
      requester_id = r;
      addressee_id = a;
      status = pending;
      created_at = now;
      updated_at = now;
    })

  unfoldable pub exists : Text → Text → Io Bool
  unfolding attempt cast_uuid joins
  exists user_a user_b = attempt do
    a ← cast_uuid x user_a
    b ← cast_uuid x user_b
    gets (λ w. any (joins a b) w.db.friendships)

  unfoldable pub get_by_id : Text → Io Friendship
  unfolding attempt cast_uuid
  get_by_id id = attempt do
    i ← cast_uuid x id
    found ← gets (λ w. find? (λ f. f.id == i) w.db.friendships)
    one_row found

  -- `update … set status = $1, updated_at = now() where id = $2 and addressee_id = $3 returning …`
  unfoldable pub update_status : Text → FriendStatus → Text → Io Friendship
  unfolding attempt cast_uuid
  update_status id status acting = attempt do
    i ← cast_uuid x id
    u ← cast_uuid x acting
    now ← gets (λ w. w.now)
    let hit = λ (f : Friendship). f.id == i && f.addressee_id == u
    let set = λ (f : Friendship). record f { status = status; updated_at = now }
    found ← gets (λ w. find? hit w.db.friendships)
    modify_db (λ db. record db { friendships = update_where hit set db.friendships })
    f ← one_row found
    pure (set f)

  unfoldable pub delete : Text → Text → Io (Unit {0})
  unfolding attempt cast_uuid
  delete id acting = attempt do
    i ← cast_uuid x id
    u ← cast_uuid x acting
    let hit = λ (f : Friendship). f.id == i && (f.requester_id == u || f.addressee_id == u)
    modify_db (λ db. record db { friendships = delete_where hit db.friendships })

  unfoldable pub list_friends : Text → Io (List FriendResponse)
  unfolding attempt cast_uuid join_all join_user other_end is_friend_row
  list_friends user = attempt do
    u ← cast_uuid x user
    gets (λ w.
        join_all (λ f. join_user w.db.users (other_end u f) f)
          (select (is_friend_row u) w.db.friendships))

  unfoldable pub list_pending_incoming : Text → Io (List FriendResponse)
  unfolding attempt cast_uuid join_all join_user status_eq
  list_pending_incoming user = attempt do
    u ← cast_uuid x user
    gets (λ w.
        join_all (λ f. join_user w.db.users f.requester_id f)
          (select (λ f. f.addressee_id == u && status_eq f.status pending) w.db.friendships))
