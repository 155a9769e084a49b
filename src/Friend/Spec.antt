-- ===== src/Friend/Spec.antt =====
-- What the friend service is for two users `a` and `b`: how they stand to each other, and how each
-- call changes that.
use ffgif.Base.{
  ℕ, ◌≡◌, ◌⊎◌, Bool, true, false, ◌&&◌, Option, none, some, find?, any, Text, if◌then◌else◌,
}
use ffgif.World.{World, External, Result, ok, err, Friendship, pending, accepted, blocked}
use ffgif.Friend.Repo.{joins}
use ffgif.Friend.Effects.{addressed, held_by}

pub data Link : Type 0 where
  strangers : Link
  -- one of them, who is named, has asked the other
  asked : ℕ → Link
  friends : Link
  barred : Link

-- How two users stand by the row that joins them.
abbrev pub link_of : Option Friendship → Link
link_of none = strangers
link_of (some f) = elim f.status [
  | pending ↦ asked f.requester_id
  | accepted ↦ friends
  | blocked ↦ barred
]

abbrev pub link : ℕ → ℕ → World → Link
link a b w = link_of (find? (joins a b) w.db.friendships)

-- Some row of the two passes the test.
abbrev pub touches : (Friendship → Bool) → ℕ → ℕ → World → Bool
touches p a b w = any (λ f. p f && joins a b f) w.db.friendships

-- Who may accept whom: `u` is one of the two, and the other one has asked him, is barred, or is his
-- friend already.
abbrev pub MayAgree : ℕ → ℕ → ℕ → Link → Type 0
MayAgree u a b l =
    ((u ≡ b) × ((l ≡ asked a) ⊎ ((l ≡ barred) ⊎ (l ≡ friends))))
    ⊎ ((u ≡ a) × ((l ≡ asked b) ⊎ ((l ≡ barred) ⊎ (l ≡ friends))))

module _ (x : External) (s t : Text) (a b : ℕ) (w : World) where
  -- A request of `s` to `t` makes strangers of the two that it names, and of no others, into users
  -- of whom the caller has asked the other.
  abbrev pub Requests : Result Friendship × World → Type 0
  Requests (ok f, v) =
      (x.uuid_parse s ≡ some f.requester_id)
      × (x.uuid_parse t ≡ some f.addressee_id)
      × ((joins a b f ≡ false) ⊎ (link a b w ≡ strangers))
      × (link a b v ≡ (if joins a b f then asked f.requester_id else link a b w))
  Requests (err e, v) = link a b v ≡ link a b w

  -- The user `t` accepts the row `s`, of which he is the addressee: the two whose row it is are
  -- friends, and all others stand to each other as before.
  abbrev pub Agrees : Result Friendship × World → Type 0
  Agrees (ok f, v) =
      (x.uuid_parse s ≡ some f.id)
      × (x.uuid_parse t ≡ some f.addressee_id)
      × (any (addressed f.id f.addressee_id) w.db.friendships ≡ true)
      × ((touches (addressed f.id f.addressee_id) a b w ≡ false)
          ⊎ MayAgree f.addressee_id a b (link a b w))
      × (link a b v
          ≡ (if touches (addressed f.id f.addressee_id) a b w then friends else link a b w))
  Agrees (err e, v) = link a b v ≡ link a b w

  -- The user `t` deletes the row `s`, of which he is one end: the two whose row it is are strangers,
  -- and all others stand to each other as before.
  abbrev pub Parts : Result (Unit {0}) × World → Type 0
  Parts (ok _, v) =
      (i : ℕ) × (u : ℕ) × (x.uuid_parse s ≡ some i)
      × (x.uuid_parse t ≡ some u)
      × (link a b v ≡ (if touches (held_by i u) a b w then strangers else link a b w))
  Parts (err e, v) = link a b v ≡ link a b w
