-- ===== src/User/Profiles.antt =====
-- internal/infra/postgres/user_repo.go over the tables users and profiles.
use ffgif.Base.{
  ℕ, ◌==◌, ltb, Bool, ◌||◌, not, Option, none, some, [], ◌∷◌, ◌++◌, any, find?, update_where, Text,
}
use ffgif.World.{
  Io, ok, err, pure, gets, of_result, ◌>>=◌, ◌>>◌, raise_if, modify_db, attempt, next_serial,
  External, cast_uuid, one_row, message, sql_refused, User, Profile,
}
use ffgif.Auth.Users.{has_id}

unfoldable pub set_profile : Profile → Io (Unit {0})
unfolding attempt next_serial
set_profile p = attempt do
  id ← next_serial
  now ← gets (λ w. w.now)
  db ← gets (λ w. w.db)
  let row = record p { id = id; created_at = now; updated_at = now }
  raise_if (any (λ (q : Profile). q.user_id == p.user_id) db.profiles) sql_refused
  raise_if (not (any (has_id p.user_id) db.users)) sql_refused
  modify_db (λ db. record db { profiles = db.profiles ++ row ∷ [] })

-- user.ProfileResponse
pub record ProfileResponse : Type 0 where
  pub profile_pic : Text
  pub username : Text
  pub fullname : Text
  pub email : Text
  pub is_verified : Bool
  pub updated_at : ℕ

-- user.ProfileUpdateRequest, as far as `UpdateProfile` takes it: a field that is nil is left alone.
pub record ProfileUpdateRequest : Type 0 where
  pub profile_pic : Option Text
  pub username : Option Text
  pub fullname : Option Text

abbrev pub is_of : ℕ → Profile → Bool
is_of user p = p.user_id == user

abbrev pub response : User → Profile → ProfileResponse
response u p = record {
  profile_pic = p.profile_pic;
  username = u.username;
  fullname = u.fullname;
  email = u.email;
  is_verified = u.is_verified;
  updated_at = u.updated_at;
}

-- The join of a profile with its user; `for update` changes nothing for calls one after the other.
unfoldable pub get_profile : External → Text → Io ProfileResponse
unfolding attempt cast_uuid
get_profile x id = attempt do
  i ← cast_uuid x id
  p ← gets (λ w. find? (is_of i) w.db.profiles)
  p' ← one_row p
  u ← gets (λ w. find? (has_id i) w.db.users)
  u' ← one_row u
  pure (response u' p')

abbrev pub or_old {ℓ} : {A : Type ℓ} → Option A → A → A
or_old none a = a
or_old (some b) a = b

abbrev pub renamed : ProfileUpdateRequest → ℕ → User → User
renamed req now u = record u {
  username = or_old req.username u.username;
  fullname = or_old req.fullname u.fullname;
  updated_at = now;
}

abbrev pub repictured : ProfileUpdateRequest → ℕ → Profile → Profile
repictured req now p = record p {
  profile_pic = or_old req.profile_pic p.profile_pic;
  updated_at = now;
}

-- The two updates of one statement, whose new values must fit the columns. A user with no profile
-- gives a NULL, which does not scan into a string.
unfoldable pub update_profile : External → ProfileUpdateRequest → Text → Io ProfileResponse
unfolding attempt cast_uuid
update_profile x req id = attempt do
  i ← cast_uuid x id
  now ← gets (λ w. w.now)
  db ← gets (λ w. w.db)
  u ← one_row (find? (has_id i) db.users)
  raise_if
      (ltb 21 (x.char_length (renamed req now u).username)
        || ltb 100 (x.char_length (renamed req now u).fullname))
      sql_refused
  modify_db (λ db. record db {
    users = update_where (has_id i) (renamed req now) db.users;
    profiles = update_where (is_of i) (repictured req now) db.profiles;
  })
  of_result (elim (find? (is_of i) db.profiles) [
    | none ↦ err (message "converting NULL to string is unsupported")
    | some p ↦ ok (response (renamed req now u) (repictured req now p))
  ])

unfoldable pub change_password : External → Text → Text → Io (Unit {0})
unfolding attempt cast_uuid
change_password x id hash = attempt do
  i ← cast_uuid x id
  now ← gets (λ w. w.now)
  raise_if (ltb 70 (x.char_length hash)) sql_refused
  modify_db (λ db. record db {
    users =
        update_where (has_id i) (λ u. record u { password_hash = hash; updated_at = now }) db.users;
  })
