-- ===== src/User/Erasure.antt =====
-- The deletion of an account: internal/app/user/delete_user.go with the cascades
-- of the tables.
use ffgif.Base.{ℕ, ◌≡◌, true, false, ◌||◌, Text, any, ◌==◌}
use ffgif.World.{
  Db, User, World, Result, ok, err, External, Verifier, Reseter, Profile, Quota, Friendship, Gif,
  Share, Job, LastUpload,
}
use ffgif.Pkg
use ffgif.Pkg.{Config}
use ffgif.Auth.Users
use ffgif.User.Service

-- No row of any table is the user's or refers to him.
abbrev pub IsErased : ℕ → Db → Type 0
IsErased u db =
    (any (Users.has_id u) db.users ≡ false)
    × (any (λ (v : Verifier). v.user_id == u) db.verifiers ≡ false)
    × (any (λ (r : Reseter). r.user_id == u) db.reseters ≡ false)
    × (any (λ (p : Profile). p.user_id == u) db.profiles ≡ false)
    × (any (λ (q : Quota). q.user_id == u) db.quotas ≡ false)
    × (any (λ (f : Friendship). f.requester_id == u || f.addressee_id == u) db.friendships ≡ false)
    × (any (λ (g : Gif). g.user_id == u) db.gifs ≡ false)
    × (any (λ (s : Share). s.owner_id == u || s.shared_with == u) db.shares ≡ false)
    × (any (λ (j : Job). j.user_id == u) db.jobs ≡ false)
    × (any (λ (l : LastUpload). l.user_id == u) db.last_uploads ≡ false)

module _ (x : External) (cfg : Config) where
  -- The outcomes of a deletion, by its result.
  abbrev pub Erases : User → Text → World → Result (Unit {0}) × World → Type 0
  Erases user pass w (ok _, w') =
      IsErased user.id w'.db × (Pkg.compare_hash_and_password x cfg user.password_hash pass ≡ true)
  Erases user pass w (err e, w') = w'.db ≡ w.db
