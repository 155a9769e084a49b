-- ===== src/Friend/Effects.antt =====
-- What a call of the friend service does to the table, on every branch and under every outage.
use ffgif.Base.{
  ℕ, ◌≡◌, ◌≢◌, Bool, true, false, Option, none, some, List, [], ◌∷◌, ◌++◌, arith, any, find?,
  delete_where, update_where, Text, ◌==◌, ◌&&◌, ◌||◌, inl, inr, Option-cases, find?-sound,
  any-of_find?, update_where-none,
}
use ffgif.World.{World, Result, ok, err, External, Friendship, pending, accepted}
use ffgif.Friend.Repo
use ffgif.Friend.Service

-- The row that `accept` marks: that of an id, if a user is its addressee.
abbrev pub addressed : ℕ → ℕ → Friendship → Bool
addressed i u g = g.id == i && g.addressee_id == u

abbrev pub mark_accepted : ℕ → Friendship → Friendship
mark_accepted now g = record g { status = accepted; updated_at = now }

-- The rows that `reject` and `remove` delete: that of an id, if a user is one of its ends.
abbrev pub held_by : ℕ → ℕ → Friendship → Bool
held_by i u g = g.id == i && (g.requester_id == u || g.addressee_id == u)

abbrev pub without : Option ℕ → Option ℕ → List Friendship → List Friendship
without (some i) (some u) fs = delete_where (held_by i u) fs
without none _ fs = fs
without (some _) none fs = fs

module _ (x : External) where
  -- The outcomes of the insertion, by its result.
  abbrev Creates : Text → Text → World → Result Friendship × World → Type 0
  Creates s t w (ok f, w') =
      (w'.db ≡ record w.db { friendships = w.db.friendships ++ f ∷ [] })
      × (x.uuid_parse s ≡ some f.requester_id)
      × (x.uuid_parse t ≡ some f.addressee_id)
      × (f.status ≡ pending)
      × (f.requester_id ≢ f.addressee_id)
  Creates s t w (err _, w') = w'.db ≡ w.db

  create-Creates : (s t : Text) (w : World) → Creates s t w (Repo.create x s t w)
  unfolding Repo.create
  create-Creates s t w = ground arith

  -- The outcomes of a request, by its result.
  abbrev pub Sends : Text → Text → World → Result Friendship × World → Type 0
  Sends s t w (ok f, w') =
      (w'.db ≡ record w.db { friendships = w.db.friendships ++ f ∷ [] })
      × (x.uuid_parse s ≡ some f.requester_id)
      × (x.uuid_parse t ≡ some f.addressee_id)
      × (f.status ≡ pending)
      × (f.requester_id ≢ f.addressee_id)
      × (any (Repo.joins f.requester_id f.addressee_id) w.db.friendships ≡ false)
  Sends s t w (err _, w') = w'.db ≡ w.db

  -- Under any outage, `SendRequest` that returns a row has added that row, pending, between the
  -- two users that the ids name, who differ and were not joined by any row before, and has
  -- changed no other table; one that fails has changed no table.
  pub send_request-Sends : (s t : Text) (w : World) → Sends s t w (Service.send_request x s t w)
  unfolding Service.send_request
  send_request-Sends s t w = ground arith

  -- The outcomes of an acceptance, by its result.
  abbrev pub Accepts : Text → Text → World → Result Friendship × World → Type 0
  Accepts s t w (ok f, w') =
      (x.uuid_parse s ≡ some f.id)
      × (x.uuid_parse t ≡ some f.addressee_id)
      × (f.status ≡ accepted)
      × (any (addressed f.id f.addressee_id) w.db.friendships ≡ true)
      × (w'.db ≡ record w.db {
        friendships =
            update_where (addressed f.id f.addressee_id) (mark_accepted w.now) w.db.friendships;
      })
  Accepts s t w (err _, w') = w'.db ≡ w.db

  -- Under any outage, `Accept` that returns a row has marked the row of that id, whose addressee
  -- is the acting user, as accepted, and changed nothing else in the tables; one that fails has
  -- changed no table.
  pub accept-Accepts : (s t : Text) (w : World) → Accepts s t w (Service.accept x s t w)
  unfolding Service.accept
  accept-Accepts s t w = elim (Option-cases (x.uuid_parse s)) [
    | inl e ↦ ground arith
    | inr (i, e) ↦ elim (Option-cases (x.uuid_parse t)) [
      | inl e' ↦ ground arith
      | inr (u, e') ↦ elim (Option-cases (find? (addressed i u) w.db.friendships)) [
        | inl n ↦
            ground
              (arith, update_where-none (addressed i u) (mark_accepted w.now) w.db.friendships n)
        | inr (f, h) ↦ ground (
          arith,
          find?-sound (addressed i u) w.db.friendships f h,
          any-of_find? (addressed i u) w.db.friendships f h,
        )
      ]
    ]
  ]

  -- The outcomes of a deletion, by its result.
  abbrev pub Deletes : Text → Text → World → Result (Unit {0}) × World → Type 0
  Deletes s t w (ok _, w') =
      (x.uuid_parse s ≢ none)
      × (x.uuid_parse t ≢ none)
      × (w'.db ≡ record w.db {
        friendships = without (x.uuid_parse s) (x.uuid_parse t) w.db.friendships;
      })
  Deletes s t w (err _, w') = w'.db ≡ w.db

  -- Under any outage, `Reject` that returns no error has deleted from the tables exactly the rows
  -- of the id that have the acting user as one of their ends; one that fails has changed no
  -- table.
  pub reject-Deletes : (s t : Text) (w : World) → Deletes s t w (Service.reject x s t w)
  unfolding Service.reject
  reject-Deletes s t w = ground arith

  -- Under any outage, `Remove` that returns no error has deleted from the tables exactly the rows
  -- of the id that have the acting user as one of their ends; one that fails has changed no
  -- table.
  pub remove-Deletes : (s t : Text) (w : World) → Deletes s t w (Service.remove x s t w)
  unfolding Service.remove
  remove-Deletes s t w = ground arith
