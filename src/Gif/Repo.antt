-- ===== src/Gif/Repo.antt =====
-- internal/infra/postgres/gif_repo.go over the table gifs. A query gives the whole row where the
-- program takes all its columns but the owner's.
use ffgif.Base.{
  ℕ, ◌+◌, ltb, ◌==◌, Bool, true, false, ◌&&◌, ◌||◌, not, Option, none, some, List, [], ◌∷◌, ◌++◌,
  Text, codes, text_eq, if◌then◌else◌, find?, any, select, delete_where, update_where, take, drop,
}
use ffgif.World.{
  Db, Io, pure, gets, ◌>>=◌, ◌>>◌, raise_if, modify_db, attempt, External, cast_uuid, one_row,
  sql_refused, Gif, Share, ShareByToken,
}
use ffgif.Auth.Users.{has_id}

abbrev pub has_key : Text → Gif → Bool
has_key key g = text_eq g.key key

-- The columns that `Create` does not name get their defaults.
unfoldable pub create : External → Text → Gif → Io (Unit {0})
unfolding attempt cast_uuid
create x user gif = attempt do
  u ← cast_uuid x user
  now ← gets (λ w. w.now)
  db ← gets (λ w. w.db)
  raise_if (any (has_key gif.key) db.gifs || not (any (has_id u) db.users)) sql_refused
  let row = record gif {
    user_id = u;
    status = codes "private";
    persist = false;
    download = 0;
    created_at = now;
    updated_at = now;
  }
  modify_db (λ db. record db { gifs = db.gifs ++ row ∷ [] })

-- `order by created_at desc`
unfoldable pub insert_newest : Gif → List Gif → List Gif
insert_newest g [] = g ∷ []
insert_newest g (h ∷ hs) =
    if ltb g.created_at h.created_at then h ∷ insert_newest g hs else g ∷ h ∷ hs

unfoldable pub newest_first : List Gif → List Gif
unfolding insert_newest
newest_first [] = []
newest_first (g ∷ gs) = insert_newest g (newest_first gs)

-- `limit` and `offset`
unfoldable pub get : External → Text → Text → ℕ → ℕ → Io (List Gif)
unfolding attempt cast_uuid newest_first
get x user status limit offset = attempt do
  u ← cast_uuid x user
  let hit = λ (g : Gif). g.user_id == u && (text_eq status (codes "all") || text_eq g.status status)
  gets (λ w. take limit (drop offset (newest_first (select hit w.db.gifs))))

-- PostgreSQL writes a uuid as uuid.UUID.String does.
unfoldable pub get_owner : External → Text → Io Text
unfolding attempt
get_owner x key = attempt do
  found ← gets (λ w. find? (has_key key) w.db.gifs)
  g ← one_row found
  pure (x.uuid_string g.user_id)

unfoldable pub get_by_key : Text → Io Gif
unfolding attempt
get_by_key key = attempt do found ← gets (λ w. find? (has_key key) w.db.gifs); one_row found

unfoldable pub get_recents : External → Text → Io (List Gif)
unfolding attempt cast_uuid newest_first
get_recents x user = attempt do
  u ← cast_uuid x user
  gets (λ w. take 20 (newest_first (select (λ g. g.user_id == u) w.db.gifs)))

-- The shares and the share tokens of the GIF go with it.
abbrev pub without_gif : Text → Db → Db
without_gif key db = record db {
  gifs = delete_where (has_key key) db.gifs;
  shares =
      if any (has_key key) db.gifs
      then delete_where (λ (s : Share). text_eq s.gif_key key) db.shares
      else db.shares;
  share_tokens =
      if any (has_key key) db.gifs
      then delete_where (λ (s : ShareByToken). text_eq s.gif_key key) db.share_tokens
      else db.share_tokens;
}

unfoldable pub delete : Text → Io (Unit {0})
unfolding attempt
delete key = attempt (modify_db (without_gif key))

-- media.GifUpdateRequest: a field that is nil is left alone.
pub record UpdateRequest : Type 0 where
  pub name : Option Text
  pub status : Option Text
  pub persist : Option Bool
  pub is_public : Option Bool

abbrev pub coalesce {ℓ} : {A : Type ℓ} → Option A → A → A
coalesce none a = a
coalesce (some b) a = b

abbrev pub updated : UpdateRequest → ℕ → Gif → Gif
updated req now g = record g {
  name = coalesce req.name g.name;
  status = coalesce req.status g.status;
  persist = coalesce req.persist g.persist;
  is_public = coalesce req.is_public g.is_public;
  updated_at = now;
}

unfoldable pub update : Text → UpdateRequest → Io Gif
unfolding attempt
update key req = attempt do
  now ← gets (λ w. w.now)
  found ← gets (λ w. find? (has_key key) w.db.gifs)
  modify_db (λ db. record db { gifs = update_where (has_key key) (updated req now) db.gifs })
  g ← one_row found
  pure (updated req now g)

unfoldable pub save_recent : Text → Io (Unit {0})
unfolding attempt
save_recent key = attempt do
  now ← gets (λ w. w.now)
  modify_db (λ db. record db {
    gifs = update_where (has_key key) (λ g. record g { persist = true; updated_at = now }) db.gifs;
  })

abbrev pub downloaded : ℕ → Gif → Gif
downloaded now g = record g { download = g.download + 1; updated_at = now }

unfoldable pub increment_download : Text → Io (Unit {0})
unfolding attempt
increment_download key = attempt do
  now ← gets (λ w. w.now)
  modify_db (λ db. record db { gifs = update_where (has_key key) (downloaded now) db.gifs })
