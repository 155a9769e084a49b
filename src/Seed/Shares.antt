-- ===== src/Seed/Shares.antt =====
-- cmd/bootstrap/cmd/seed.go, seedShares and seedShareTokens.
use ffgif.Base.{
  ℕ, suc, ◌+◌, ◌-◌, ◌*◌, leb, ltb, ◌==◌, ◌&&◌, ◌||◌, not, Option, none, some, List, [], ◌∷◌, ◌++◌,
  Text, codes, text_eq, length, take, select, if◌then◌else◌, any,
}
use ffgif.World.{
  Io, gets, ◌>>=◌, ◌>>◌, raise_if, modify_db, draw_uuid, External, sql_refused, Share, ShareByToken,
}
use ffgif.Pkg.{hour}
use ffgif.Auth.Users.{has_id}
use ffgif.Gif.Repo.{has_key}
use ffgif.Share.Repo.{is_for, is_link_to}
use ffgif.Seed.Random.{Random, Place, int_n, float_bits, get_elem?}
use ffgif.Seed.Batches.{batches, exec_all}
use ffgif.Seed.Gifs.{SeededGif}
use ffgif.Seed.Friends.{FriendPair}

pub record ShareRecord : Type 0 where
  pub gif_key : Text
  pub owner_id : ℕ
  pub shared_with : ℕ
  pub expires_at : Option ℕ
  pub created_at : ℕ

-- The variables of the loop.
pub record Shared : Type 0 where
  pub shares : List ShareRecord
  pub share_set : List Text

pub record Linked : Type 0 where
  pub tokens : List ShareByToken
  pub token_set : List Text

module _ (x : External) (rand : Random) (now : ℕ) where
  abbrev share_key : Text → ℕ → Text
  share_key key user = key ++ (codes ":" ++ x.uuid_string user)

  -- 0.60 is 5404319552844595 / 2^53.
  unfoldable pub make_share : ℕ → FriendPair → Text → ShareRecord
  make_share i p key = record {
    gif_key = key;
    owner_id = p.user_a;
    shared_with = p.user_b;
    expires_at =
        if ltb (float_bits (rand.draw Place.expiry_roll i 0)) 5_404_319_552_844_595
        then some (now + 7 * (24 * hour))
        else none;
    created_at = now - int_n 336 (rand.draw Place.share_age i 0) * hour;
  }

  unfoldable pub share_one : ℕ → FriendPair → SeededGif → Shared → Shared
  unfolding text_eq make_share
  share_one i p gif s =
      let key = share_key gif.key p.user_b in
      if any (text_eq key) s.share_set then s else record {
        shares = s.shares ++ make_share i p gif.key ∷ [];
        share_set = s.share_set ++ key ∷ [];
      }

  -- A friend who has no GIF shares none.
  unfoldable pub share_turn : List SeededGif → ℕ → FriendPair → Shared → Shared
  unfolding share_one
  share_turn gifs i p s =
      let owned = select (λ (g : SeededGif). g.user_id == p.user_a) gifs in
      elim (get_elem? owned (int_n (length owned) (rand.draw Place.sample i 0))) [
        | none ↦ s
        | some gif ↦ share_one i p gif s
      ]

  unfoldable pub share_all : List SeededGif → ℕ → List FriendPair → Shared → Shared
  unfolding share_turn
  share_all gifs i [] s = s
  share_all gifs i (p ∷ ps) s = share_all gifs (suc i) ps (share_turn gifs i p s)

  unfoldable pub make_token : ℕ → SeededGif → ShareByToken
  make_token i gif = record {
    gif_key = gif.key;
    token = rand.token i;
    email = codes "recipient_" ++ (take 8 (rand.token i) ++ codes "@external.org");
    expires_at = some (now + 3 * (24 * hour));
    created_at = now - int_n 48 (rand.draw Place.token_age i 0) * hour;
  }

  -- The turn for a GIF; 0.08 is 5764607523034235 / 2^56.
  unfoldable pub link_turn : ℕ → SeededGif → Linked → Linked
  unfolding text_eq make_token
  link_turn i gif s =
      let t = make_token i gif in
      let key = gif.key ++ (codes ":" ++ t.email) in
      if not (text_eq gif.status (codes "public")) || leb 500 (length s.tokens)
      then s
      else if ltb 5_764_607_523_034_235 (float_bits (rand.draw Place.token_roll i 0) * 8)
      then s
      else if any (text_eq key) s.token_set
      then s
      else record { tokens = s.tokens ++ t ∷ []; token_set = s.token_set ++ key ∷ [] }

  unfoldable pub link_all : ℕ → List SeededGif → Linked → Linked
  unfolding link_turn
  link_all i [] s = s
  link_all i (g ∷ gs) s = link_all (suc i) gs (link_turn i g s)

-- `on conflict (gif_key, shared_with) do nothing`
unfoldable pub insert_share : ShareRecord → Io (Unit {0})
unfolding draw_uuid
insert_share s = do
  id ← draw_uuid
  db ← gets (λ w. w.db)
  raise_if
      (any (λ (t : Share). t.id == id) db.shares
        || not (any (has_key s.gif_key) db.gifs)
        || not (any (has_id s.owner_id) db.users)
        || not (any (has_id s.shared_with) db.users))
      sql_refused
  let row : Share = record {
    id = id;
    gif_key = s.gif_key;
    owner_id = s.owner_id;
    shared_with = s.shared_with;
    expires_at = s.expires_at;
    created_at = s.created_at;
  }
  modify_db (λ db. record db {
    shares =
        if any (is_for s.gif_key s.shared_with) db.shares then db.shares else db.shares ++ row ∷ [];
  })

-- `on conflict (gif_key, email) do nothing`; a token that is there under another pair is an error.
unfoldable pub insert_token : ShareByToken → Io (Unit {0})
unfolding text_eq
insert_token t = do
  db ← gets (λ w. w.db)
  let linked = any (is_link_to t.gif_key t.email) db.share_tokens
  raise_if
      (not (any (has_key t.gif_key) db.gifs)
        || (not linked && any (λ (o : ShareByToken). text_eq o.token t.token) db.share_tokens))
      sql_refused
  modify_db (λ db. record db {
    share_tokens = if linked then db.share_tokens else db.share_tokens ++ t ∷ [];
  })

module _ (x : External) (rand : Random) where
  unfoldable pub seed_shares : List FriendPair → List SeededGif → Io (Unit {0})
  unfolding share_all insert_share batches exec_all
  seed_shares pairs gifs = do
    now ← gets (λ w. w.now)
    exec_all insert_share (
        batches 250
          (share_all x rand now gifs 0 pairs (record { shares = []; share_set = [] })).shares)

  unfoldable pub seed_share_tokens : List SeededGif → Io (Unit {0})
  unfolding link_all insert_token batches exec_all
  seed_share_tokens gifs = do
    now ← gets (λ w. w.now)
    exec_all insert_token
        (batches 250 (link_all x rand now 0 gifs (record { tokens = []; token_set = [] })).tokens)
