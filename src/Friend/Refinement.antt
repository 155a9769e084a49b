-- ===== src/Friend/Refinement.antt =====
-- The friend service and its table against Spec.
use ffgif.Base.{
  ℕ, ◌≡◌, ◌≢◌, ◌⊎◌, ◌&&◌, any-of_find?, refl, inl, inr, Bool, true, false, Option, none, some, List,
  [], ◌∷◌, ◌++◌, arith, any, find?, delete_where, update_where, Text, Option-cases, find?-sound,
  find?-append, find?-append_found, find?-update_where, find?-update_where-none, if◌then◌else◌,
}
use ffgif.World.{World, Result, ok, err, External, Friendship, pending}
use ffgif.Friend.Repo.{joins}
use ffgif.Friend.Service
use ffgif.Friend.Pairs.{IsOncePaired}
use ffgif.Friend.Effects.{
  Sends, send_request-Sends, Accepts, accept-Accepts, Deletes, reject-Deletes, remove-Deletes,
  addressed, mark_accepted, held_by, without,
}
use ffgif.Friend.Spec.{strangers, asked, friends, link_of, Requests, MayAgree, Agrees, Parts}

-- Rows of the same two users are found by the same tests.
any-joins_same :
    (a b : ℕ) (f : Friendship) (fs : List Friendship)
    → joins a b f ≡ true
    → any (joins a b) fs ≡ any (joins f.requester_id f.addressee_id) fs
unfolding any joins
any-joins_same a b f [] h = refl
any-joins_same a b f (g ∷ fs) h = ground (arith, any-joins_same a b f fs h)

abbrev unless : (Friendship → Bool) → Option Friendship → Option Friendship
unless p none = none
unless p (some f) = if p f then none else some f

any-deleted :
    (p q : Friendship → Bool) (fs : List Friendship)
    → any q fs ≡ false
    → find? q (delete_where p fs) ≡ none
unfolding any delete_where find?
any-deleted p q [] h = refl
any-deleted p q (f ∷ fs) h = ground (arith, any-deleted p q fs)

-- In a table that joins two users once, what is left of a deletion for them.
find?-delete_joined :
    (p : Friendship → Bool) (a b : ℕ) (fs : List Friendship)
    → IsOncePaired fs
    → find? (joins a b) (delete_where p fs) ≡ unless p (find? (joins a b) fs)
unfolding find? delete_where
find?-delete_joined p a b [] k = refl
find?-delete_joined p a b (f ∷ fs) k =
    ground (
      arith,
      find?-delete_joined p a b fs k.2,
      any-joins_same a b f fs,
      any-deleted p (joins a b) fs,
    )

any-and :
    (p q : Friendship → Bool) (fs : List Friendship)
    → any q fs ≡ false
    → any (λ f. p f && q f) fs ≡ false
unfolding any
any-and p q [] h = refl
any-and p q (f ∷ fs) h = ground (arith, any-and p q fs)

abbrev passes : (Friendship → Bool) → Option Friendship → Bool
passes p none = false
passes p (some f) = p f

-- In a table that joins two users once, a test on the rows of the two is one on their row.
touches_lem :
    (p : Friendship → Bool) (a b : ℕ) (fs : List Friendship)
    → IsOncePaired fs
    → any (λ f. p f && joins a b f) fs ≡ passes p (find? (joins a b) fs)
unfolding any find?
touches_lem p a b [] k = refl
touches_lem p a b (f ∷ fs) k =
    ground (arith, touches_lem p a b fs k.2, any-joins_same a b f fs, any-and p (joins a b) fs)

sent-link :
    (a b : ℕ) (f : Friendship) (fs : List Friendship)
    → f.status ≡ pending
    → any (joins f.requester_id f.addressee_id) fs ≡ false
    → ((joins a b f ≡ false) ⊎ (link_of (find? (joins a b) fs) ≡ strangers))
      × (link_of (find? (joins a b) (fs ++ f ∷ []))
          ≡ (if joins a b f then asked f.requester_id else link_of (find? (joins a b) fs)))
unfolding find?
sent-link a b f fs new free = elim (Option-cases (find? (joins a b) fs)) [
  | inl n ↦ ground (arith, find?-append (joins a b) fs (f ∷ []) n)
  | inr (g, n) ↦ ground (
    arith,
    find?-append_found (joins a b) fs (f ∷ []) g n,
    any-joins_same a b f fs,
    any-of_find? (joins a b) fs g n,
  )
]

marked-link :
    (i u a b now : ℕ) (fs : List Friendship)
    → IsOncePaired fs
    → ((any (λ f. addressed i u f && joins a b f) fs ≡ false)
        ⊎ MayAgree u a b (link_of (find? (joins a b) fs)))
      × (link_of (find? (joins a b) (update_where (addressed i u) (mark_accepted now) fs)) ≡ (
          if any (λ f. addressed i u f && joins a b f) fs
          then friends
          else link_of (find? (joins a b) fs)))
unfolding joins
marked-link i u a b now fs k = elim (Option-cases (find? (joins a b) fs)) [
  | inl n ↦ ground (
    arith,
    touches_lem (addressed i u) a b fs k,
    find?-update_where-none (addressed i u) (joins a b) (mark_accepted now) fs (λ f. refl) n,
  )
  | inr (g, n) ↦ ground (
    arith,
    touches_lem (addressed i u) a b fs k,
    find?-sound (joins a b) fs g n,
    find?-update_where (addressed i u) (joins a b) (mark_accepted now) fs g (λ f. refl) n,
  )
]

deleted-link :
    (p : Friendship → Bool) (a b : ℕ) (fs : List Friendship)
    → IsOncePaired fs
    → link_of (find? (joins a b) (delete_where p fs))
      ≡ (if any (λ f. p f && joins a b f) fs then strangers else link_of (find? (joins a b) fs))
deleted-link p a b fs k = elim (Option-cases (find? (joins a b) fs)) [
  | inl n ↦ ground (arith, touches_lem p a b fs k, find?-delete_joined p a b fs k)
  | inr (g, n) ↦ ground (arith, touches_lem p a b fs k, find?-delete_joined p a b fs k)
]

module _ (x : External) (s t : Text) (a b : ℕ) (w : World) where
  Sends-Requests :
      (r : Result Friendship) (v : World) → Sends x s t w (r, v) → Requests x s t a b w (r, v)
  Sends-Requests (ok f) v h =
      rw h.0 (let l = sent-link a b f w.db.friendships h.3 h.5 in (h.1, h.2, l.0, l.1))
  Sends-Requests (err e) v h = rw h refl

  Accepts-Agrees :
      (r : Result Friendship) (v : World)
      → IsOncePaired w.db.friendships
      → Accepts x s t w (r, v)
      → Agrees x s t a b w (r, v)
  Accepts-Agrees (ok f) v k h = rw h.4 (
      let l = marked-link f.id f.addressee_id a b w.now w.db.friendships k in
      (h.0, h.1, h.3, l.0, l.1))
  Accepts-Agrees (err e) v k h = rw h refl

  by_ids :
      (i u : Option ℕ) (v : World)
      → x.uuid_parse s ≡ i
      → x.uuid_parse t ≡ u
      → i ≢ none
      → u ≢ none
      → IsOncePaired w.db.friendships
      → v.db ≡ record w.db { friendships = without i u w.db.friendships }
      → Parts x s t a b w (ok tt, v)
  by_ids none u v e e' h h' k d = absurd (h refl)
  by_ids (some i) none v e e' h h' k d = absurd (h' refl)
  by_ids (some i) (some u) v e e' h h' k d =
      (i, u, e, e', rw d (deleted-link (held_by i u) a b w.db.friendships k))

  Deletes-Parts :
      (r : Result (Unit {0})) (v : World)
      → IsOncePaired w.db.friendships
      → Deletes x s t w (r, v)
      → Parts x s t a b w (r, v)
  Deletes-Parts (ok _) v k h = by_ids (x.uuid_parse s) (x.uuid_parse t) v refl refl h.0 h.1 k h.2
  Deletes-Parts (err e) v k h = rw h refl

module _ (x : External) where
  -- Each call does what Spec says of it, seen by any two users `a` and `b`, under any outage, in a
  -- table that joins no users twice. A request that succeeds was between two strangers, and now the
  -- caller has asked the other; an acceptance that succeeds was of a row whose addressee is the
  -- caller, and the two of that row are friends, whom before one had asked the other, the caller, who
  -- were friends already or one of whom was barred; a rejection or a removal that succeeds makes
  -- strangers of the two of the row, if the caller is one of them. Any other two stand to each other
  -- as before, and so do all after a call that fails.
  pub calls-Moves :
      (s t : Text) (a b : ℕ) (w : World)
      → IsOncePaired w.db.friendships
      → Requests x s t a b w (Service.send_request x s t w)
        × Agrees x s t a b w (Service.accept x s t w)
        × Parts x s t a b w (Service.reject x s t w)
        × Parts x s t a b w (Service.remove x s t w)
  calls-Moves s t a b w k = (
    Sends-Requests x s t a b w _ _ (send_request-Sends x s t w),
    Accepts-Agrees x s t a b w _ _ k (accept-Accepts x s t w),
    Deletes-Parts x s t a b w _ _ k (reject-Deletes x s t w),
    Deletes-Parts x s t a b w _ _ k (remove-Deletes x s t w),
  )
