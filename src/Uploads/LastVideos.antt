-- ===== src/Uploads/LastVideos.antt =====
-- internal/infra/postgres/gif_repo.go, `lastVideoRepo`, over the table last_upload, which holds one
-- row for a user.
use ffgif.Base.{
  ℕ, ◌==◌, Bool, not, List, [], ◌∷◌, ◌++◌, Text, any, find?, update_where, if◌then◌else◌,
}
use ffgif.World.{
  Io, gets, map_err, ◌>>=◌, ◌>>◌, raise_if, modify_db, attempt, External, cast_uuid, one_row, wrap,
  sql_refused, LastUpload,
}
use ffgif.Auth.Users.{has_id}

abbrev pub is_of : ℕ → LastUpload → Bool
is_of user l = l.user_id == user

-- `on conflict (user_id) do update`: the whole row is replaced.
unfoldable pub upsert : LastUpload → List LastUpload → List LastUpload
upsert row ls =
    if any (is_of row.user_id) ls
    then update_where (is_of row.user_id) (λ l. row) ls
    else ls ++ row ∷ []

unfoldable pub create : LastUpload → Io (Unit {0})
unfolding attempt upsert
create upload = map_err wrap (
    attempt do
      now ← gets (λ w. w.now)
      db ← gets (λ w. w.db)
      raise_if (not (any (has_id upload.user_id) db.users)) sql_refused
      modify_db (λ db. record db {
        last_uploads = upsert (record upload { updated_at = now }) db.last_uploads;
      }))

unfoldable pub get_last_video : External → Text → Io LastUpload
unfolding attempt cast_uuid
get_last_video x user =
    attempt
      do u ← cast_uuid x user; found ← gets (λ w. find? (is_of u) w.db.last_uploads); one_row found
