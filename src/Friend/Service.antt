-- ===== src/Friend/Service.antt =====
-- internal/app/friend/service.go
use ffgif.Base.{Bool, List, Text, text_eq, if◌then◌else◌}
use ffgif.World.{
  Io, map_err, raise_if, ◌>>=◌, ◌>>◌, External, Error, known, wrap, errors_is, no_rows,
  friendship_not_found, already_exists, cannot_friend_self, Friendship, accepted, FriendResponse,
}
use ffgif.Friend.Repo

-- The error of `Accept`.
abbrev pub accept_error : Error → Error
accept_error e = if errors_is e no_rows then known friendship_not_found else wrap e

module _ (x : External) where
  -- `SendRequest` up to its first statement, and from its answer on.
  unfoldable pub look : Text → Text → Io Bool
  unfolding Repo.exists
  look requester addressee = do
    raise_if (text_eq requester addressee) (known cannot_friend_self)
    map_err wrap (Repo.exists x requester addressee)

  unfoldable pub add : Text → Text → Bool → Io Friendship
  unfolding Repo.create
  add requester addressee exists = do
    raise_if exists (known already_exists)
    map_err wrap (Repo.create x requester addressee)

  unfoldable pub send_request : Text → Text → Io Friendship
  unfolding look add
  send_request requester addressee = do
    exists ← look requester addressee
    add requester addressee exists

  unfoldable pub accept : Text → Text → Io Friendship
  unfolding Repo.update_status
  accept id acting = map_err accept_error (Repo.update_status x id accepted acting)

  unfoldable pub reject : Text → Text → Io (Unit {0})
  unfolding Repo.delete
  reject id acting = Repo.delete x id acting

  unfoldable pub remove : Text → Text → Io (Unit {0})
  unfolding Repo.delete
  remove id acting = Repo.delete x id acting

  unfoldable pub list_friends : Text → Io (List FriendResponse)
  unfolding Repo.list_friends
  list_friends user = Repo.list_friends x user

  unfoldable pub list_pending_incoming : Text → Io (List FriendResponse)
  unfolding Repo.list_pending_incoming
  list_pending_incoming user = Repo.list_pending_incoming x user
