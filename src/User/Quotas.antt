-- ===== src/User/Quotas.antt =====
-- internal/infra/postgres/quota_repo.go over the table quota, whose defaults are those of its
-- migration. The amounts are those that the program passes, which are not negative, and the sums
-- are taken to fit the INT columns.
use ffgif.Base.{ℕ, ◌+◌, leb, ◌==◌, Bool, ◌&&◌, not, [], ◌∷◌, ◌++◌, Text, find?, any, update_where}
use ffgif.World.{
  Io, pure, gets, ◌>>=◌, ◌>>◌, raise_if, modify_db, attempt, next_serial, External, cast_uuid,
  one_row, sql_refused, Quota,
}
use ffgif.Auth.Users.{has_id}

abbrev pub is_of : ℕ → Quota → Bool
is_of user q = q.user_id == user

unfoldable pub create : Quota → Io (Unit {0})
unfolding attempt next_serial
create quota = attempt do
  id ← next_serial
  db ← gets (λ w. w.db)
  raise_if (any (is_of quota.user_id) db.quotas) sql_refused
  raise_if (not (any (has_id quota.user_id) db.users)) sql_refused
  let row = record quota {
    id = id;
    used_bytes = 0;
    total_bytes = 1_073_741_824;
    gif_count = 0;
    gif_limit = 100;
  }
  modify_db (λ db. record db { quotas = db.quotas ++ row ∷ [] })

unfoldable pub get_by_id : External → Text → Io Quota
unfolding attempt cast_uuid
get_by_id x user =
    attempt do u ← cast_uuid x user; found ← gets (λ w. find? (is_of u) w.db.quotas); one_row found

-- The row of the user, if the two additions stay within its limits.
abbrev pub has_room : ℕ → ℕ → ℕ → Quota → Bool
has_room user bytes gifs q =
    is_of user q && leb (q.used_bytes + bytes) q.total_bytes && leb (q.gif_count + gifs) q.gif_limit

abbrev pub charge : ℕ → ℕ → Quota → Quota
charge bytes gifs q = record q { used_bytes = q.used_bytes + bytes; gif_count = q.gif_count + gifs }

-- Whether a row was updated.
unfoldable pub increment_usage : External → Text → ℕ → ℕ → Io Bool
unfolding attempt cast_uuid
increment_usage x user bytes gifs = attempt do
  u ← cast_uuid x user
  hit ← gets (λ w. any (has_room u bytes gifs) w.db.quotas)
  modify_db (λ db. record db {
    quotas = update_where (has_room u bytes gifs) (charge bytes gifs) db.quotas;
  })
  pure hit
