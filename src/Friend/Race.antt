-- ===== src/Friend/Race.antt =====
-- `SendRequest` looks for a row and then inserts one, in two statements with no transaction round
-- them. Here the two halves of two requests, of `a` to `b` and of `b` to `a`, take turns.
use ffgif.Base.{
  ◌+◌, ℕ, ◌≡◌, ◌≢◌, true, false, none, some, List, [], ◌∷◌, ◌++◌, ◌&&◌, arith, any, Text, text_eq,
  ◌==◌, any-append,
}
use ffgif.World.{World, ok, Io, External, NoOutage, Friendship, pending, ◌>>=◌, pure}
use ffgif.Friend.Repo
use ffgif.Friend.Service
use ffgif.Friend.Listing.{is_user}
use ffgif.Friend.Pairs.{IsOncePaired}

module _ (x : External) where
  -- Two calls of `SendRequest` at the same time: both look, then both insert.
  unfoldable pub both_requests : Text → Text → Io (Friendship × Friendship)
  unfolding Service.look Service.add
  both_requests s t = do
    first ← Service.look x s t
    second ← Service.look x t s
    f ← Service.add x s t first
    g ← Service.add x t s second
    pure (f, g)

unjoined :
    (a b : ℕ) (fs : List Friendship)
    → any (Repo.joins a b) fs ≡ false
    → (any (Repo.joins b a) fs ≡ false)
      × (any (λ g. g.requester_id == a && g.addressee_id == b) fs ≡ false)
      × (any (λ g. g.requester_id == b && g.addressee_id == a) fs ≡ false)
unfolding any Repo.joins
unjoined a b [] h = ground arith
unjoined a b (f ∷ fs) h = ground (arith, unjoined a b fs)

joined_twice :
    (fs : List Friendship) (f g : Friendship)
    → Repo.joins f.requester_id f.addressee_id g ≡ true
    → ¬ (IsOncePaired ((fs ++ f ∷ []) ++ g ∷ []))
unfolding any
joined_twice [] f g h k = ground arith
joined_twice (e ∷ fs) f g h k = joined_twice fs f g h k.2

module _ (x : External) where
  -- What two users, known and not yet joined, meet when nothing fails and the uuids are fresh.
  pub record Meets (s t : Text) (a b : ℕ) (w : World) : Type 0 where
    pub up : NoOutage w
    pub first : x.uuid_parse s ≡ some a
    pub second : x.uuid_parse t ≡ some b
    pub other_text : text_eq s t ≡ false
    pub other_text_back : text_eq t s ≡ false
    pub distinct : a ≢ b
    pub first_known : any (is_user a) w.db.users ≡ true
    pub second_known : any (is_user b) w.db.users ≡ true
    pub apart : any (Repo.joins a b) w.db.friendships ≡ false
    pub fresh : any (λ g. g.id == w.uuids w.drawn) w.db.friendships ≡ false
    pub fresh_next : any (λ g. g.id == w.uuids (w.drawn + 1)) w.db.friendships ≡ false
    pub ids_differ : w.uuids w.drawn ≢ w.uuids (w.drawn + 1)

  abbrev pub new_row : ℕ → ℕ → World → Friendship
  new_row a b w = record {
    id = w.uuids w.drawn;
    requester_id = a;
    addressee_id = b;
    status = pending;
    created_at = w.now;
    updated_at = w.now;
  }

  exists_lem :
      (s t : Text) (a b : ℕ) (w : World)
      → w.outage w.calls ≡ none
      → x.uuid_parse s ≡ some a
      → x.uuid_parse t ≡ some b
      → any (Repo.joins a b) w.db.friendships ≡ false
      → Repo.exists x s t w ≡ (ok false, record w { calls = w.calls + 1 })
  unfolding Repo.exists
  exists_lem s t a b w up e e' h = ground arith

  create_lem :
      (s t : Text) (a b : ℕ) (w : World)
      → w.outage w.calls ≡ none
      → x.uuid_parse s ≡ some a
      → x.uuid_parse t ≡ some b
      → Repo.insert_refused w.db (new_row a b w) ≡ false
      → Repo.create x s t w ≡ (
        ok (new_row a b w),
        record w {
          calls = w.calls + 1;
          drawn = w.drawn + 1;
          db = record w.db { friendships = w.db.friendships ++ new_row a b w ∷ [] };
        },
      )
  unfolding Repo.create
  create_lem s t a b w up e e' h = ground arith

  abbrev pub looked : World → World
  looked w = record w { calls = w.calls + 1 + 1 }

  abbrev pub added : ℕ → ℕ → World → World
  added a b w = record w {
    calls = w.calls + 1;
    drawn = w.drawn + 1;
    db = record w.db { friendships = w.db.friendships ++ new_row a b w ∷ [] };
  }

  first-fits :
      (s t : Text) (a b : ℕ) (w : World)
      → Meets s t a b w
      → Repo.insert_refused w.db (new_row a b w) ≡ false
  unfolding Repo.insert_refused
  first-fits s t a b w h = ground (arith, unjoined a b w.db.friendships)

  second-fits :
      (s t : Text) (a b : ℕ) (w : World)
      → Meets s t a b w
      → Repo.insert_refused (added a b w).db (new_row b a (added a b w)) ≡ false
  unfolding Repo.insert_refused any
  second-fits s t a b w h = ground (
    arith,
    unjoined a b w.db.friendships,
    any-append (λ (g : Friendship). g.id == w.uuids (w.drawn + 1)) w.db.friendships
        (new_row a b w ∷ []),
    any-append (λ (g : Friendship). g.requester_id == b && g.addressee_id == a) w.db.friendships
        (new_row a b w ∷ []),
  )

  Meets-looked : (s t : Text) (a b : ℕ) (w : World) → Meets s t a b w → Meets s t a b (looked w)
  Meets-looked s t a b w h = record {
    up = h.up;
    first = h.first;
    second = h.second;
    other_text = h.other_text;
    other_text_back = h.other_text_back;
    distinct = h.distinct;
    first_known = h.first_known;
    second_known = h.second_known;
    apart = h.apart;
    fresh = h.fresh;
    fresh_next = h.fresh_next;
    ids_differ = h.ids_differ;
  }

  -- Two known users, not joined by a row, who send each other a request at the same time, so that
  -- both calls of `SendRequest` look before one of them inserts, are joined twice, if nothing fails
  -- and the uuids are fresh: both calls return the row of their request, and the invariant of the
  -- table is broken.
  pub both_requests-joined_twice :
      (s t : Text) (a b : ℕ) (w : World)
      → Meets s t a b w
      → ((both_requests x s t w).0
          ≡ ok (new_row a b (looked w), new_row b a (added a b (looked w))))
        × (¬ (IsOncePaired (both_requests x s t w).1.db.friendships))
  unfolding both_requests Repo.joins
  both_requests-joined_twice s t a b w h =
      let v = looked w in
      let u = added a b v in
      let k = Meets-looked s t a b w h in
      ground (
        arith,
        exists_lem s t a b w (h.up w.calls) h.first h.second h.apart,
        exists_lem t s b a (record w { calls = w.calls + 1 }) (h.up (w.calls + 1)) h.second h.first
            (unjoined a b w.db.friendships h.apart).0,
        create_lem s t a b v (h.up v.calls) h.first h.second (first-fits s t a b v k),
        create_lem t s b a u (h.up u.calls) h.second h.first (second-fits s t a b v k),
        joined_twice w.db.friendships (new_row a b v) (new_row b a u),
      )
