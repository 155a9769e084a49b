-- ===== src/Auth/Users.antt =====
-- internal/infra/postgres/auth_repo.go `authRepo`, over the table users and the tables that refer to
-- it, with the constraints and the defaults of migrations/000001_create_user_table.up.sql.
use ffgif.Base.{
  ℕ, ltb, ◌==◌, Bool, true, ◌||◌, not, none, [], ◌∷◌, ◌++◌, Text, text_eq, find?, any, delete_where,
  update_where,
}
use ffgif.World.{
  Db, Io, pure, gets, ◌>>=◌, ◌>>◌, raise_if, modify_db, attempt, draw_uuid, External, one_row,
  sql_refused, User, Verifier, Reseter, Profile, Quota, Friendship, Gif, Share, ShareByToken, Job,
  LastUpload,
}

abbrev pub has_email : Text → User → Bool
has_email email u = text_eq u.email email

abbrev pub has_id : ℕ → User → Bool
has_id id u = u.id == id

unfoldable pub get_by_email : Text → Io User
unfolding attempt
get_by_email email =
    attempt do found ← gets (λ w. find? (has_email email) w.db.users); one_row found

unfoldable pub get_by_id : ℕ → Io User
unfolding attempt
get_by_id id = attempt do found ← gets (λ w. find? (has_id id) w.db.users); one_row found

-- The primary key, the unique e-mail address and the lengths of the columns.
unfoldable pub user_refused : External → Db → User → Bool
user_refused x db u =
    any (has_id u.id) db.users
    || any (has_email u.email) db.users
    || ltb 21 (x.char_length u.username)
    || ltb 100 (x.char_length u.fullname)
    || ltb 50 (x.char_length u.email)
    || ltb 70 (x.char_length u.password_hash)
    || ltb 6 (x.char_length u.role)

-- The id and the two times are the defaults of the table. The statement returns only some columns.
unfoldable pub create : External → User → Io User
unfolding attempt draw_uuid user_refused
create x user = attempt do
  id ← draw_uuid
  now ← gets (λ w. w.now)
  db ← gets (λ w. w.db)
  let row = record user { id = id; created_at = now; updated_at = now }
  raise_if (user_refused x db row) sql_refused
  modify_db (λ db. record db { users = db.users ++ row ∷ [] })
  pure (record row { password_hash = []; updated_at = 0; deleted_at = none })

-- `delete from users` with the cascades of the tables that refer to it.
unfoldable pub delete_users : (User → Bool) → Db → Db
delete_users p db =
    let users = delete_where p db.users in
    let gone = λ (id : ℕ). not (any (has_id id) users) in
    let gifs = delete_where (λ (g : Gif). gone g.user_id) db.gifs in
    let no_gif = λ (key : Text). not (any (λ (g : Gif). text_eq g.key key) gifs) in
    record {
      users = users;
      verifiers = delete_where (λ (v : Verifier). gone v.user_id) db.verifiers;
      reseters = delete_where (λ (r : Reseter). gone r.user_id) db.reseters;
      profiles = delete_where (λ (p : Profile). gone p.user_id) db.profiles;
      quotas = delete_where (λ (q : Quota). gone q.user_id) db.quotas;
      friendships =
          delete_where (λ (f : Friendship). gone f.requester_id || gone f.addressee_id)
            db.friendships;
      gifs = gifs;
      shares =
          delete_where (λ (s : Share). no_gif s.gif_key || gone s.owner_id || gone s.shared_with)
            db.shares;
      share_tokens = delete_where (λ (s : ShareByToken). no_gif s.gif_key) db.share_tokens;
      jobs = delete_where (λ (j : Job). gone j.user_id) db.jobs;
      last_uploads = delete_where (λ (l : LastUpload). gone l.user_id) db.last_uploads;
    }

unfoldable pub delete_by_id : ℕ → Io (Unit {0})
unfolding attempt delete_users
delete_by_id id = attempt (modify_db (delete_users (has_id id)))

unfoldable pub delete_by_email : Text → Io (Unit {0})
unfolding attempt delete_users
delete_by_email email = attempt (modify_db (delete_users (has_email email)))

unfoldable pub update_password : External → ℕ → Text → Io (Unit {0})
unfolding attempt
update_password x id hash = attempt do
  raise_if (ltb 70 (x.char_length hash)) sql_refused
  modify_db (λ db. record db {
    users = update_where (has_id id) (λ u. record u { password_hash = hash }) db.users;
  })

unfoldable pub set_verified : ℕ → Io (Unit {0})
unfolding attempt
set_verified id = attempt (
    modify_db (λ db. record db {
      users = update_where (has_id id) (λ u. record u { is_verified = true }) db.users;
    }))
