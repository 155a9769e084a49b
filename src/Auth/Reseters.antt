-- ===== src/Auth/Reseters.antt =====
-- internal/infra/postgres/auth_repo.go, `reseterRepo`, over the table reseter.
use ffgif.Base.{
  ℕ, ◌+◌, ◌*◌, ltb, ◌==◌, Bool, false, ◌&&◌, not, [], ◌∷◌, ◌++◌, Text, text_eq, if◌then◌else◌,
  find?, any, delete_where, update_where,
}
use ffgif.World.{
  Io, pure, gets, ◌>>=◌, ◌>>◌, raise_if, modify_db, attempt, next_serial, one_row, sql_refused,
  Reseter,
}
use ffgif.Pkg.{minute}
use ffgif.Auth.Users.{has_id}

abbrev pub has_hash : Text → Reseter → Bool
has_hash hash r = text_eq r.token hash

abbrev pub is_of : ℕ → Reseter → Bool
is_of user r = r.user_id == user

-- `token_hash = $1 and expire_at > now()`
abbrev pub is_live : Text → ℕ → Reseter → Bool
is_live hash now r = has_hash hash r && ltb now r.expire_at

unfoldable pub get_by_id : ℕ → Io Reseter
unfolding attempt
get_by_id user = attempt do
  found ← gets (λ w. find? (λ (r : Reseter). is_of user r && ltb w.now r.expire_at) w.db.reseters)
  one_row found

unfoldable pub update : Reseter → Io (Unit {0})
update r = pure tt

-- A reseter lives for 15 minutes. If the user has one, only its hash is replaced.
unfoldable pub create : Reseter → Io (Unit {0})
unfolding attempt next_serial
create r = attempt do
  id ← next_serial
  now ← gets (λ w. w.now)
  db ← gets (λ w. w.db)
  let row = record r { id = id; used = false; created_at = now; expire_at = now + 15 * minute }
  raise_if (not (any (has_id r.user_id) db.users)) sql_refused
  raise_if (any (λ o. has_hash r.token o && not (is_of r.user_id o)) db.reseters) sql_refused
  modify_db (λ db. record db {
    reseters =
        if any (is_of r.user_id) db.reseters
        then update_where (is_of r.user_id) (λ o. record o { token = r.token }) db.reseters
        else db.reseters ++ row ∷ [];
  })

unfoldable pub get_by_token : Text → Io Reseter
unfolding attempt
get_by_token token =
    attempt do found ← gets (λ w. find? (is_live token w.now) w.db.reseters); one_row found

unfoldable pub delete_by_id : ℕ → Io (Unit {0})
unfolding attempt
delete_by_id id = attempt (
    modify_db
      (λ db. record db { reseters = delete_where (λ (r : Reseter). r.id == id) db.reseters }))
