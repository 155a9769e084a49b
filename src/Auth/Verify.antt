-- ===== src/Auth/Verify.antt =====
-- What `Verify` does with a mailed token.
use ffgif.Base.{
  ℕ, ◌≡◌, ◌≢◌, ◌⊎◌, refl, ap, sym, subst, ◌∙◌, Bool, true, false, Option, none, some, List, [], ◌∷◌,
  arith, Text, any, find?, delete_where, update_where, Option-cases, inl, inr, text_eq_iff, ◌==◌,
}
use ffgif.World.{Db, World, Result, ok, err, External, known, invalid_token, Verifier}
use ffgif.Pkg.{Config}
use ffgif.Auth.Users
use ffgif.Auth.Verifiers
use ffgif.Auth.Service

-- The constraint of the column `token_hash`: no two rows hold the same hash.
abbrev pub IsOncePerHash : List Verifier → Type 0
IsOncePerHash [] = Unit
IsOncePerHash (v ∷ vs) = (any (Verifiers.has_hash v.token) vs ≡ false) × IsOncePerHash vs

-- The tables when the verifier `v` is used up.
abbrev pub consumed : Verifier → Db → Db
consumed v db = record db {
  users = update_where (Users.has_id v.user_id) (λ u. record u { is_verified = true }) db.users;
  verifiers = delete_where (λ (o : Verifier). o.id == v.id) db.verifiers;
}

module _ (x : External) (cfg : Config) (token : Text) (w : World) where
  abbrev pub presented : Option Verifier
  presented = find? (Verifiers.is_live (x.sha256_hex token) w.now) w.db.verifiers

  -- The outcomes of a verification, by the verifier that the token names and the result.
  abbrev pub Verifies : Option Verifier → Result (Unit {0}) × World → Type 0
  Verifies (some v) (ok _, w') = w'.db ≡ consumed v w.db
  Verifies (some v) (err _, w') = w'.db ≡ w.db
  Verifies none (ok _, w') = ⊥
  Verifies none (err e, w') =
      (w'.db ≡ w.db) × ((e ≡ known invalid_token) ⊎ (w.outage w.calls ≢ none))

  verify_with : (o : Option Verifier) → presented ≡ o → Verifies o (Service.verify x cfg token w)
  unfolding Service.verify
  verify_with (some v) e = ground arith
  verify_with none e = ground arith

  -- Under any outage, `Verify` of a token whose hash a live verifier has either verifies the user
  -- of the verifier and deletes the verifier, or fails and changes no table; of any other token
  -- it fails, changes no table, and answers `ErrInvalidToken` unless the look at the table
  -- failed.
  pub verify-Verifies : Verifies presented (Service.verify x cfg token w)
  verify-Verifies = verify_with presented refl

-- The two readings of `Verifies` that the theorem below needs.
accepted_lem :
    (x : External) (cfg : Config) (token : Text) (w : World) (v : Verifier) (r : Result (Unit {0}))
    (w' : World)
    → Verifies x cfg token w (some v) (r, w')
    → r ≡ ok tt
    → w'.db ≡ consumed v w.db
accepted_lem x cfg token w v (ok a) w' h e = h
accepted_lem x cfg token w v (err a) w' h e = cc

unverified_lem :
    (x : External) (cfg : Config) (token : Text) (w : World) (r : Result (Unit {0})) (w' : World)
    → Verifies x cfg token w none (r, w')
    → r ≢ ok tt
unverified_lem x cfg token w (ok a) w' h e = h
unverified_lem x cfg token w (err a) w' h e = cc

refused_lem :
    (x : External) (cfg : Config) (token : Text) (w : World) (r : Result (Unit {0})) (w' : World)
    → Verifies x cfg token w none (r, w')
    → w.outage w.calls ≡ none
    → (r ≡ err (known invalid_token)) × (w'.db ≡ w.db)
refused_lem x cfg token w (ok a) w' h e = absurd h
refused_lem x cfg token w (err a) w' h e = elim h.1 [
  | inl same ↦ (ap err same, h.0)
  | inr down ↦ absurd (down e)
]

pub any-of_live :
    (hash : Text) (now : ℕ) (vs : List Verifier)
    → any (Verifiers.has_hash hash) vs ≡ false
    → find? (Verifiers.is_live hash now) vs ≡ none
unfolding any find?
any-of_live hash now [] h = refl
any-of_live hash now (v ∷ vs) h = ground (arith, any-of_live hash now vs)

any-delete_where :
    (p q : Verifier → Bool) (vs : List Verifier)
    → any q vs ≡ false
    → any q (delete_where p vs) ≡ false
unfolding any delete_where
any-delete_where p q [] h = refl
any-delete_where p q (v ∷ vs) h = ground (arith, any-delete_where p q vs)

-- Once the row that was found is deleted, no row has its hash.
used_up :
    (hash : Text) (now : ℕ) (vs : List Verifier) (v : Verifier)
    → IsOncePerHash vs
    → find? (Verifiers.is_live hash now) vs ≡ some v
    → any (Verifiers.has_hash hash) (delete_where (λ (o : Verifier). o.id == v.id) vs) ≡ false
unfolding find? any delete_where
used_up hash now [] v k h = cc
used_up hash now (o ∷ vs) v k h = ground (
  arith,
  used_up hash now vs v k.1,
  text_eq_iff o.token hash,
  any-delete_where (λ (a : Verifier). a.id == v.id) (Verifiers.has_hash hash) vs,
  any-of_live hash now vs,
)

module _ (x : External) (cfg : Config) (token : Text) where
  -- A token that has verified an account is spent: presented again, at any later time and in any
  -- world that still has the verifiers of then and whose first call goes through, it is refused
  -- with `ErrInvalidToken` and no table changes, if no two rows held the same hash.
  pub verify-once :
      (w u : World)
      → IsOncePerHash w.db.verifiers
      → (Service.verify x cfg token w).0 ≡ ok tt
      → u.db.verifiers ≡ (Service.verify x cfg token w).1.db.verifiers
      → u.outage u.calls ≡ none
      → ((Service.verify x cfg token u).0 ≡ err (known invalid_token))
        × ((Service.verify x cfg token u).1.db ≡ u.db)
  verify-once w u k e same up = elim (Option-cases (presented x cfg token w)) [
    | inl n ↦ absurd (unverified_lem x cfg token w _ _ (verify_with x cfg token w none n) e)
    | inr (v, h) ↦
        let left = accepted_lem x cfg token w v _ _ (verify_with x cfg token w (some v) h) e in
        let spent = used_up (x.sha256_hex token) w.now w.db.verifiers v k h in
        let now_spent =
          subst (λ vs. any (Verifiers.has_hash (x.sha256_hex token)) vs ≡ false)
            (sym (same ∙ ap (λ (d : Db). d.verifiers) left)) spent in
        refused_lem x cfg token u _ _
          (verify_with x cfg token u none (any-of_live (x.sha256_hex token) u.now _ now_spent)) up
  ]
