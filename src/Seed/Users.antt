-- ===== src/Seed/Users.antt =====
-- cmd/bootstrap/cmd/seed.go, seedUsersAndProfiles. An AddDate goes back whole days of 24 hours.
use ffgif.Base.{
  ℕ, zero, suc, ◌+◌, ◌-◌, ◌*◌, ltb, ◌==◌, true, ◌||◌, not, none, List, [], ◌∷◌, ◌++◌, Text, codes,
  length, take, if◌then◌else◌, any,
}
use ffgif.World.{
  Io, pure, gets, ◌>>=◌, ◌>>◌, raise_if, modify_db, draw_uuid, next_serial, External, sql_refused,
  User, Profile,
}
use ffgif.Pkg.{second, hour}
use ffgif.Auth.Users.{has_id, has_email}
use ffgif.Seed.Random.{Random, Place, int_n, get_or, decimal, to_lower}
use ffgif.Seed.Names.{first_names, last_names}
use ffgif.Seed.Batches.{batches, exec}

pub record SeededUser : Type 0 where
  pub id : ℕ
  pub username : Text
  pub fullname : Text
  pub email : Text
  pub created_at : ℕ

unfoldable pub username_of : Text → Text → ℕ → Text
unfolding to_lower decimal
username_of fn ln i =
    let name = to_lower fn ++ (codes "_" ++ (to_lower ln ++ decimal i)) in
    if ltb 20 (length name) then take 20 name else name

unfoldable pub email_of : Text → Text → ℕ → Text
unfolding to_lower decimal
email_of fn ln i =
    let email =
      to_lower fn ++ (codes "." ++ (to_lower ln ++ (decimal i ++ codes "@ffgif.local"))) in
    if ltb 50 (length email)
    then codes "u" ++ (decimal i ++ (codes "_" ++ (to_lower ln ++ codes "@ffgif.local")))
    else email

module _ (rand : Random) where
  -- The turn `i` of the loop, with the new uuid.
  unfoldable pub make_user : ℕ → ℕ → ℕ → SeededUser
  unfolding username_of email_of
  make_user now id i =
      let fn =
        get_or [] first_names (int_n (length first_names) (rand.draw Place.first_name i 0)) in
      let ln = get_or [] last_names (int_n (length last_names) (rand.draw Place.last_name i 0)) in
      let days = int_n 90 (rand.draw Place.past_days i 0) + 1 in
      let seconds = int_n 86_400 (rand.draw Place.past_seconds i 0) in
      record {
        id = id;
        username = username_of fn ln i;
        fullname = fn ++ (codes " " ++ ln);
        email = email_of fn ln i;
        created_at = now - days * (24 * hour) + seconds * second;
      }

  -- The users of the last `n` turns of `count`.
  unfoldable pub make_users : ℕ → ℕ → ℕ → Io (List SeededUser)
  unfolding draw_uuid make_user
  make_users now count zero = pure []
  make_users now count (suc n) = do
    id ← draw_uuid
    rest ← make_users now count n
    pure (make_user now id (count - n) ∷ rest)

-- `on conflict (email) do nothing`; the other constraints of the table are errors.
unfoldable pub insert_user : External → Text → SeededUser → Io (Unit {0})
insert_user x pass_hash u = do
  now ← gets (λ w. w.now)
  db ← gets (λ w. w.db)
  raise_if
      (any (has_id u.id) db.users
        || ltb 21 (x.char_length u.username)
        || ltb 100 (x.char_length u.fullname)
        || ltb 50 (x.char_length u.email)
        || ltb 70 (x.char_length pass_hash))
      sql_refused
  let row : User = record {
    id = u.id;
    username = u.username;
    fullname = u.fullname;
    email = u.email;
    password_hash = pass_hash;
    is_verified = true;
    role = codes "user";
    created_at = u.created_at;
    updated_at = now;
    deleted_at = none;
  }
  modify_db (λ db. record db {
    users = if any (has_email u.email) db.users then db.users else db.users ++ row ∷ [];
  })

-- `on conflict (user_id) do nothing`; a user who is not there is an error.
unfoldable pub insert_profile : SeededUser → Io (Unit {0})
unfolding next_serial
insert_profile u = do
  id ← next_serial
  now ← gets (λ w. w.now)
  db ← gets (λ w. w.db)
  raise_if (not (any (has_id u.id) db.users)) sql_refused
  let row : Profile = record {
    id = id;
    user_id = u.id;
    profile_pic = codes "https://api.dicebear.com/7.x/bottts/svg?seed=" ++ u.username;
    created_at = u.created_at;
    updated_at = now;
  }
  modify_db (λ db. record db {
    profiles =
        if any (λ (p : Profile). p.user_id == u.id) db.profiles
        then db.profiles
        else db.profiles ++ row ∷ [];
  })

module _ (x : External) where
  -- One turn of the loop over the batches: the users, then their profiles.
  unfoldable pub insert_users : Text → List (List SeededUser) → Io (Unit {0})
  unfolding exec insert_user insert_profile
  insert_users pass_hash [] = pure tt
  insert_users pass_hash (b ∷ bs) =
      exec (insert_user x pass_hash) b >> exec insert_profile b >> insert_users pass_hash bs

  unfoldable pub seed_users_and_profiles : Random → ℕ → Text → Io (List SeededUser)
  unfolding make_users insert_users batches
  seed_users_and_profiles rand count pass_hash = do
    now ← gets (λ w. w.now)
    users ← make_users rand now count count
    insert_users pass_hash (batches 250 users)
    pure users
