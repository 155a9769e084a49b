-- ===== src/Share/Repo.antt =====
-- internal/infra/postgres/share_repo.go over the tables shares and share_tokens.
use ffgif.Base.{
  ℕ, ltb, ◌==◌, Bool, false, ◌&&◌, ◌||◌, not, Option, none, some, List, [], ◌∷◌, ◌++◌, Text,
  text_eq, if◌then◌else◌, find?, any, select, delete_where, update_where,
}
use ffgif.World.{
  Db, Io, pure, gets, ◌>>=◌, ◌>>◌, raise_if, modify_db, attempt, draw_uuid, External, cast_uuid,
  one_row, sql_refused, Share, ShareByToken,
}
use ffgif.Auth.Users.{has_id}
use ffgif.Gif.Repo.{has_key}

-- `expires_at > now()`, which does not hold of NULL
abbrev pub is_after : ℕ → Option ℕ → Bool
is_after now none = false
is_after now (some t) = ltb now t

-- `gif_key = $1 and shared_with = $2`
abbrev pub is_for : Text → ℕ → Share → Bool
is_for key user s = text_eq s.gif_key key && s.shared_with == user

-- A second share of a GIF with a user only replaces the expiry.
unfoldable pub create : External → Text → Text → Text → Option ℕ → Io (Unit {0})
unfolding attempt cast_uuid draw_uuid
create x gif_key owner shared_with expires_at = attempt do
  o ← cast_uuid x owner
  u ← cast_uuid x shared_with
  id ← draw_uuid
  now ← gets (λ w. w.now)
  db ← gets (λ w. w.db)
  let row : Share = record {
    id = id;
    gif_key = gif_key;
    owner_id = o;
    shared_with = u;
    expires_at = expires_at;
    created_at = now;
  }
  raise_if
      (not (any (has_key gif_key) db.gifs)
        || not (any (has_id o) db.users)
        || not (any (has_id u) db.users)
        || any (λ (s : Share). s.id == id) db.shares)
      sql_refused
  modify_db (λ db. record db {
    shares =
        if any (is_for gif_key u) db.shares
        then update_where (is_for gif_key u) (λ s. record s { expires_at = expires_at }) db.shares
        else db.shares ++ row ∷ [];
  })

-- `gif_key = $1 and email = $2`
abbrev pub is_link_to : Text → Text → ShareByToken → Bool
is_link_to key email s = text_eq s.gif_key key && text_eq s.email email

-- A second link of a GIF for an address only replaces the expiry.
unfoldable pub create_by_token : ShareByToken → Io (Unit {0})
unfolding attempt
create_by_token s = attempt do
  now ← gets (λ w. w.now)
  db ← gets (λ w. w.db)
  let row = record s { created_at = now }
  raise_if
      (not (any (has_key s.gif_key) db.gifs)
        || any (λ o. text_eq o.token s.token && not (is_link_to s.gif_key s.email o))
            db.share_tokens)
      sql_refused
  modify_db (λ db. record db {
    share_tokens =
        if any (is_link_to s.gif_key s.email) db.share_tokens
        then update_where (is_link_to s.gif_key s.email)
            (λ o. record o { expires_at = s.expires_at }) db.share_tokens
        else db.share_tokens ++ row ∷ [];
  })

-- The join of a share with its GIF, as far as the keys go.
abbrev pub with_gif : Db → Share → Bool
with_gif db s = any (has_key s.gif_key) db.gifs

-- `(owner_id = u) or (shared_with = u and expires_at > now())`
abbrev pub is_visible_to : ℕ → ℕ → Share → Bool
is_visible_to user now s =
    s.owner_id == user || (s.shared_with == user && is_after now s.expires_at)

unfoldable pub get : External → Text → Io (List Share)
unfolding attempt cast_uuid
get x user = attempt do
  u ← cast_uuid x user
  gets (λ w. select (λ s. with_gif w.db s && is_visible_to u w.now s) w.db.shares)

-- `token = $1 and expires_at > now()`, joined with the GIF
abbrev pub opens : Text → ℕ → Db → ShareByToken → Bool
opens token now db s =
    text_eq s.token token && is_after now s.expires_at && any (has_key s.gif_key) db.gifs

unfoldable pub get_by_token : Text → Io ShareByToken
unfolding attempt
get_by_token token =
    attempt do found ← gets (λ w. find? (opens token w.now w.db) w.db.share_tokens); one_row found

unfoldable pub delete : External → Text → Text → Io (Unit {0})
unfolding attempt cast_uuid
delete x key shared_with = attempt do
  u ← cast_uuid x shared_with
  modify_db (λ db. record db { shares = delete_where (is_for key u) db.shares })

-- `gif_key = $1 and shared_with = $2 and expires_at > now()`
abbrev pub is_live_for : Text → ℕ → ℕ → Share → Bool
is_live_for key user now s = is_for key user s && is_after now s.expires_at

unfoldable pub get_owner : External → Text → Text → Io Text
unfolding attempt cast_uuid
get_owner x user key = attempt do
  u ← cast_uuid x user
  found ← gets (λ w. find? (is_live_for key u w.now) w.db.shares)
  s ← one_row found
  pure (x.uuid_string s.owner_id)
