-- ===== src/Auth/Verifiers.antt =====
-- internal/infra/postgres/auth_repo.go, `verifierRepo`, over the table verifier.
use ffgif.Base.{
  ℕ, ◌+◌, ◌*◌, ltb, ◌==◌, Bool, ◌&&◌, ◌||◌, not, [], ◌∷◌, ◌++◌, Text, text_eq, find?, any,
  delete_where,
}
use ffgif.World.{
  Db, Io, gets, ◌>>=◌, ◌>>◌, raise_if, modify_db, attempt, next_serial, one_row, sql_refused,
  Verifier,
}
use ffgif.Pkg.{minute}
use ffgif.Auth.Users.{has_id}

abbrev pub has_hash : Text → Verifier → Bool
has_hash hash v = text_eq v.token hash

abbrev pub is_of : ℕ → Verifier → Bool
is_of user v = v.user_id == user

unfoldable pub refused : Db → Verifier → Bool
refused db v =
    any (is_of v.user_id) db.verifiers
    || any (has_hash v.token) db.verifiers
    || not (any (has_id v.user_id) db.users)

-- A verifier lives for 30 minutes.
unfoldable pub create : Verifier → Io (Unit {0})
unfolding attempt next_serial refused
create v = attempt do
  id ← next_serial
  now ← gets (λ w. w.now)
  db ← gets (λ w. w.db)
  let row = record v { id = id; created_at = now; expire_at = now + 30 * minute }
  raise_if (refused db row) sql_refused
  modify_db (λ db. record db { verifiers = db.verifiers ++ row ∷ [] })

-- `token_hash = $1 and expire_at > now()`
abbrev pub is_live : Text → ℕ → Verifier → Bool
is_live hash now v = has_hash hash v && ltb now v.expire_at

unfoldable pub get_by_hash : Text → Io Verifier
unfolding attempt
get_by_hash hash =
    attempt do found ← gets (λ w. find? (is_live hash w.now) w.db.verifiers); one_row found

unfoldable pub get_by_id : ℕ → Io Verifier
unfolding attempt
get_by_id user = attempt do found ← gets (λ w. find? (is_of user) w.db.verifiers); one_row found

unfoldable pub delete : ℕ → Io (Unit {0})
unfolding attempt
delete id = attempt (
    modify_db
      (λ db. record db { verifiers = delete_where (λ (v : Verifier). v.id == id) db.verifiers }))
