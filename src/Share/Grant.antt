-- ===== src/Share/Grant.antt =====
-- A share from its creation to its expiry or its revocation: internal/app/share/create.go and
-- delete.go, and the access to the GIF in internal/app/media/download.go.
use ffgif.Base.{
  ℕ, ◌+◌, ◌*◌, ◌<◌, ◌≤◌, ◌≡◌, ap, ◌∙◌, refl, true, false, none, some, List, [], ◌∷◌, ◌++◌, arith,
  Text, codes, text_eq, text_eq_refl, find?, any, delete_where, find?-append, Option-cases, inl,
  inr, ◌==◌,
}
use ffgif.World.{Db, World, ok, External, NoOutage, User, Gif, Share}
use ffgif.Pkg.{minute}
use ffgif.Auth.Users
use ffgif.Gif.Repo as GifRepo
use ffgif.Gif.Service as GifService
use ffgif.Gif.Ownership.{IsRefused}
use ffgif.Share.Repo
use ffgif.Share.Service

-- What package uuid documents: a printed uuid is read back, and is not empty.
pub record PrintsUuid (x : External) : Type 0 where
  pub read_back : (n : ℕ) → x.uuid_parse (x.uuid_string n) ≡ some n
  pub not_empty : (n : ℕ) → text_eq [] (x.uuid_string n) ≡ false

deleted_for :
    (key : Text) (u now : ℕ) (ss : List Share)
    → find? (Repo.is_live_for key u now) (delete_where (Repo.is_for key u) ss) ≡ none
unfolding find? delete_where
deleted_for key u now [] = refl
deleted_for key u now (s ∷ ss) = ground (arith, deleted_for key u now ss)

not_live :
    (key : Text) (u now : ℕ) (ss : List Share)
    → any (Repo.is_for key u) ss ≡ false
    → find? (Repo.is_live_for key u now) ss ≡ none
unfolding find? any
not_live key u now [] h = refl
not_live key u now (s ∷ ss) h = ground (arith, not_live key u now ss)

module _ (x : External) (laws : PrintsUuid x) where
  -- With no live share, a user who does not own the GIF gets no URL, and the call changes nothing.
  unshared-IsRefused :
      (user key : Text) (u : ℕ) (g : Gif) (v : World)
      → find? (GifRepo.has_key key) v.db.gifs ≡ some g
      → x.uuid_parse user ≡ some u
      → text_eq (x.uuid_string g.user_id) user ≡ false
      → find? (Repo.is_live_for key u v.now) v.db.shares ≡ none
      → IsRefused v (GifService.download x user key v)
  unfolding GifService.download
  unshared-IsRefused user key u g v h e foreign n = ground (arith, laws.not_empty g.user_id)

  -- What a successful revocation leaves in the table.
  revoked :
      (owner key target : Text) (u : ℕ) (w : World)
      → x.uuid_parse target ≡ some u
      → (Service.delete x owner key target w).0 ≡ ok tt
      → (Service.delete x owner key target w).1.db.shares
        ≡ delete_where (Repo.is_for key u) w.db.shares
  unfolding Service.delete
  revoked owner key target u w e done =
      elim (Option-cases (find? (Repo.is_live_for key u w.now) w.db.shares)) [
        | inl n ↦ ground arith
        | inr (s, n) ↦ ground arith
      ]

  -- A revoked share is revoked at once and for good, if printed uuids are read back and not
  -- empty: after a `Delete` that succeeds, the user it was for, who does not own the GIF, is
  -- refused the download in every world with the shares that the call left and the GIF, at any
  -- time and under any outage.
  pub delete-revokes :
      (owner key target : Text) (u : ℕ) (g : Gif) (w v : World)
      → x.uuid_parse target ≡ some u
      → (Service.delete x owner key target w).0 ≡ ok tt
      → v.db.shares ≡ (Service.delete x owner key target w).1.db.shares
      → find? (GifRepo.has_key key) v.db.gifs ≡ some g
      → text_eq (x.uuid_string g.user_id) target ≡ false
      → IsRefused v (GifService.download x target key v)
  delete-revokes owner key target u g w v e done same h foreign =
      unshared-IsRefused target key u g v h e foreign (
        ap (find? (Repo.is_live_for key u v.now)) (same ∙ revoked owner key target u w e done)
        ∙ deleted_for key u v.now w.db.shares)

  -- The first share of a GIF with a user, made by its owner for a time to come, adds its row.
  abbrev pub share_row : Text → Gif → User → ℕ → World → Share
  share_row key g t until w = record {
    id = w.uuids w.drawn;
    gif_key = key;
    owner_id = g.user_id;
    shared_with = t.id;
    expires_at = some until;
    created_at = w.now;
  }

  pub record CanShare (key email : Text) (g : Gif) (t : User) (until : ℕ) (w : World) : Type 0 where
    pub up : NoOutage w
    pub ahead : w.now < until
    pub owned : find? (GifRepo.has_key key) w.db.gifs ≡ some g
    pub known_gif : any (GifRepo.has_key key) w.db.gifs ≡ true
    pub known_owner : any (Users.has_id g.user_id) w.db.users ≡ true
    pub target : find? (Users.has_email email) w.db.users ≡ some t
    pub known_target : any (Users.has_id t.id) w.db.users ≡ true
    pub first : any (Repo.is_for key t.id) w.db.shares ≡ false
    pub fresh : any (λ (s : Share). s.id == w.uuids w.drawn) w.db.shares ≡ false

  create_ok :
      (key email : Text) (g : Gif) (t : User) (until : ℕ) (w : World)
      → CanShare key email g t until w
      → ((Service.create x (x.uuid_string g.user_id) key email until w).0 ≡ ok tt)
        × ((Service.create x (x.uuid_string g.user_id) key email until w).1.db
            ≡ record w.db { shares = w.db.shares ++ share_row key g t until w ∷ [] })
  unfolding Service.create
  create_ok key email g t until w h = ground (
    arith,
    h.up w.calls,
    h.up (w.calls + 1),
    h.up (w.calls + 1 + 1),
    laws.read_back g.user_id,
    laws.read_back t.id,
    text_eq_refl (x.uuid_string g.user_id),
  )

  download_ok :
      (user key : Text) (u : ℕ) (g : Gif) (s : Share) (v : World)
      → NoOutage v
      → find? (GifRepo.has_key key) v.db.gifs ≡ some g
      → x.uuid_parse user ≡ some u
      → find? (Repo.is_live_for key u v.now) v.db.shares ≡ some s
      → s.owner_id ≡ g.user_id
      → (GifService.download x user key v).0
        ≡ ok (x.presigned_get (codes "attachment; filename=" ++ key) key (5 * minute))
  unfolding GifService.download
  download_ok user key u g s v up h e n same = ground (
    arith,
    up v.calls,
    up (v.calls + 1),
    up (v.calls + 1 + 1),
    up (v.calls + 1 + 1 + 1),
    text_eq_refl (x.uuid_string g.user_id),
  )

  shared_until :
      (key : Text) (g : Gif) (t : User) (until now : ℕ) (w : World)
      → any (Repo.is_for key t.id) w.db.shares ≡ false
      → now < until
      → find? (Repo.is_live_for key t.id now) (w.db.shares ++ share_row key g t until w ∷ [])
        ≡ some (share_row key g t until w)
  unfolding find?
  shared_until key g t until now w h before = ground (
    arith,
    find?-append (Repo.is_live_for key t.id now) w.db.shares (share_row key g t until w ∷ []),
    not_live key t.id now w.db.shares h,
    text_eq_refl key,
  )

  shared_after :
      (key : Text) (g : Gif) (t : User) (until now : ℕ) (w : World)
      → any (Repo.is_for key t.id) w.db.shares ≡ false
      → until ≤ now
      → find? (Repo.is_live_for key t.id now) (w.db.shares ++ share_row key g t until w ∷ []) ≡ none
  unfolding find?
  shared_after key g t until now w h over = ground (
    arith,
    find?-append (Repo.is_live_for key t.id now) w.db.shares (share_row key g t until w ∷ []),
    not_live key t.id now w.db.shares h,
  )

  -- A share that an owner makes opens the GIF to its target exactly until it expires. If printed
  -- uuids are read back, the owner and the target are in the table of users, the expiry is
  -- ahead, this is the first share of the GIF with the target, its id is fresh and nothing fails
  -- in the call, then `Create` succeeds; before the expiry the target gets the URL if nothing
  -- fails, and from the expiry on he is refused under any outage, unless he owns the GIF
  -- himself. `u` and `v` are worlds with the tables that the call left, before and after the
  -- expiry.
  pub create-opens_until :
      (key email : Text) (g : Gif) (t : User) (until : ℕ) (w u v : World)
      → CanShare key email g t until w
      → NoOutage u
      → u.db ≡ (Service.create x (x.uuid_string g.user_id) key email until w).1.db
      → v.db ≡ (Service.create x (x.uuid_string g.user_id) key email until w).1.db
      → u.now < until
      → until ≤ v.now
      → text_eq (x.uuid_string g.user_id) (x.uuid_string t.id) ≡ false
      → ((Service.create x (x.uuid_string g.user_id) key email until w).0 ≡ ok tt)
        × ((GifService.download x (x.uuid_string t.id) key u).0
            ≡ ok (x.presigned_get (codes "attachment; filename=" ++ key) key (5 * minute)))
        × IsRefused v (GifService.download x (x.uuid_string t.id) key v)
  create-opens_until key email g t until w u v can up du dv before over foreign =
      let (made, tables) = create_ok key email g t until w can in
      let gif_in = λ (a : World) (e : a.db ≡ _).
        ap (λ (d : Db). find? (GifRepo.has_key key) d.gifs) (e ∙ tables) ∙ can.owned in
      let shares_in = λ (a : World) (e : a.db ≡ _) (n : ℕ).
        ap (λ (d : Db). find? (Repo.is_live_for key t.id n) d.shares) (e ∙ tables) in
      (
        made,
        download_ok (x.uuid_string t.id) key t.id g (share_row key g t until w) u up (gif_in u du)
            (laws.read_back t.id)
            (shares_in u du u.now ∙ shared_until key g t until u.now w can.first before) refl,
        unshared-IsRefused (x.uuid_string t.id) key t.id g v (gif_in v dv) (laws.read_back t.id)
            foreign (shares_in v dv v.now ∙ shared_after key g t until v.now w can.first over),
      )
