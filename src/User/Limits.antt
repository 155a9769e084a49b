-- ===== src/User/Limits.antt =====
-- The table quota under the calls that write to it: Signup, the run of a conversion, DeleteUser.
use ffgif.Base.{
  ℕ, ◌*◌, codes, ◌≤◌, ◌≡◌, refl, ◌⊎◌, inl, inr, Option-cases, none, some, List, [], ◌∷◌, ◌++◌,
  arith, Text, All, All-append, All-delete_where, update_where,
}
use ffgif.World.{
  World, Io, Result, ok, err, External, Error, Quota, VideoMessage, processing, catch, ignore,
  ◌>>=◌,
}
use ffgif.World.Keeps.{Keeps, Keeps-bind, Keeps-catch}
use ffgif.Pkg.{Config, minute}
use ffgif.Auth.Users
use ffgif.Auth.Service as AuthService
use ffgif.Auth.Signup
use ffgif.User.Quotas
use ffgif.Cache
use ffgif.Conversion.Jobs
use ffgif.Conversion.Service.{status_key}
use ffgif.User.Service
use ffgif.Conversion.Run
use ffgif.Conversion.Run.{JobResult}

abbrev pub IsWithin : Quota → Type 0
IsWithin q = (q.used_bytes ≡ 0) × (q.gif_count ≤ q.gif_limit)

abbrev pub AreWithin : World → Type 0
AreWithin w = All IsWithin w.db.quotas

charged :
    (u : ℕ) (qs : List Quota)
    → All IsWithin qs
    → All IsWithin (update_where (Quotas.has_room u 0 1) (Quotas.charge 0 1) qs)
unfolding update_where
charged u [] h = tt
charged u (q ∷ qs) h = ground (arith, charged u qs h.1)

module _ (x : External) where
  -- What the recording of a GIF does to the quotas.
  record_gif-quotas :
      (msg : VideoMessage) (r : JobResult) (u : ℕ) (w : World)
      → x.uuid_parse msg.user_id ≡ some u
      → let v = (Run.record_gif x msg r w).1 in
        (v.db.quotas ≡ w.db.quotas)
        ⊎ (v.db.quotas ≡ update_where (Quotas.has_room u 0 1) (Quotas.charge 0 1) w.db.quotas)
  unfolding Run.record_gif Run.fail_with
  record_gif-quotas msg r u w e = ground arith

  record_gif-none :
      (msg : VideoMessage) (r : JobResult) (w : World)
      → x.uuid_parse msg.user_id ≡ none
      → (Run.record_gif x msg r w).1.db.quotas ≡ w.db.quotas
  unfolding Run.record_gif Run.fail_with
  record_gif-none msg r w e = ground arith

  complete-quotas :
      (msg : VideoMessage) (r : JobResult) (w : World)
      → (Run.complete x msg r w).1.db.quotas ≡ w.db.quotas
  unfolding Run.complete
  complete-quotas msg r w = ground arith

  kept :
      {A : Type 0} (m : Io A) → ((w : World) → (m w).1.db.quotas ≡ w.db.quotas) → Keeps AreWithin m
  kept m same w h = rw (same w) h

  record_gif-AreWithin :
      (msg : VideoMessage) (r : JobResult) → Keeps AreWithin (Run.record_gif x msg r)
  record_gif-AreWithin msg r w h = elim (Option-cases (x.uuid_parse msg.user_id)) [
    | inl e ↦ rw (record_gif-none msg r w e) h
    | inr (u, e) ↦ elim (record_gif-quotas msg r u w e) [
      | inl same ↦ rw same h
      | inr more ↦ rw more (charged u w.db.quotas h)
    ]
  ]

  module _ (processor : VideoMessage → Io JobResult) (text_of : Error → Text) where
    failed-quotas :
        (msg : VideoMessage) (e : Error) (w : World)
        → (Run.after_processing x processor text_of msg (err e) w).1.db.quotas ≡ w.db.quotas
    unfolding Run.after_processing
    failed-quotas msg e w = ground arith

    after-AreWithin :
        (msg : VideoMessage) (r : Result JobResult)
        → Keeps AreWithin (Run.after_processing x processor text_of msg r)
    unfolding Run.after_processing
    after-AreWithin msg (ok r) =
        Keeps-bind AreWithin (Run.complete x msg r) (λ _. Run.record_gif x msg r)
          (kept (Run.complete x msg r) (complete-quotas msg r)) (λ _. record_gif-AreWithin msg r)
    after-AreWithin msg (err e) =
        kept (Run.after_processing x processor text_of msg (err e)) (failed-quotas msg e)

    process-AreWithin :
        (msg : VideoMessage)
        → Keeps AreWithin (processor msg)
        → Keeps AreWithin (Run.process x processor text_of msg)
    unfolding Run.process
    process-AreWithin msg good =
        let show = Cache.set (status_key msg.job_id) (codes "processing") (10 * minute) in
        let mark = ignore (Jobs.update_status x msg.job_id processing 20 [] []) in
        let rest = λ (r : Result JobResult). Run.after_processing x processor text_of msg r in
        Keeps-bind AreWithin show (λ _. mark >>= λ _. catch (processor msg) >>= rest)
          (kept show (λ w. ground arith))
          (λ _.
            Keeps-bind AreWithin mark (λ _. catch (processor msg) >>= rest)
              (kept mark (λ w. ground arith))
              (λ _.
                Keeps-bind AreWithin (catch (processor msg)) rest
                  (Keeps-catch AreWithin (processor msg) good) (after-AreWithin msg)))

module _ (x : External) (cfg : Config) where
  delete_user-quotas :
      (id pass : Text) (u : ℕ) (w : World)
      → x.uuid_parse id ≡ some u
      → let v = (Service.delete_user x cfg id pass w).1 in
        (v.db.quotas ≡ w.db.quotas)
        ⊎ (v.db.quotas ≡ (Users.delete_users (Users.has_id u) w.db).quotas)
  unfolding Service.delete_user
  delete_user-quotas id pass u w e = ground arith

  delete_user-none :
      (id pass : Text) (w : World)
      → x.uuid_parse id ≡ none
      → (Service.delete_user x cfg id pass w).1.db.quotas ≡ w.db.quotas
  unfolding Service.delete_user
  delete_user-none id pass w e = ground arith

  delete_user-AreWithin : (id pass : Text) → Keeps AreWithin (Service.delete_user x cfg id pass)
  unfolding Users.delete_users
  delete_user-AreWithin id pass w h = elim (Option-cases (x.uuid_parse id)) [
    | inl e ↦ rw (delete_user-none id pass w e) h
    | inr (u, e) ↦ elim (delete_user-quotas id pass u w e) [
      | inl same ↦ rw same h
      | inr less ↦ rw less (All-delete_where IsWithin _ w.db.quotas h)
    ]
  ]

  module _ (email username fullname password : Text) where
    registered-AreWithin :
        (hash : Text) (w : World) (p : Result ℕ × World)
        → Signup.Registers x cfg email username fullname password hash w p
        → AreWithin w
        → AreWithin p.1
    registered-AreWithin hash w (ok id, v) r h =
        rw r.1 (All-append IsWithin w.db.quotas _ h ((refl, omega arith), tt))
    registered-AreWithin hash w (err e, v) r h = elim r.1 [
      | inl same ↦ rw same h
      | inr (made, _) ↦ rw made (All-append IsWithin w.db.quotas _ h ((refl, omega arith), tt))
    ]

    unhashed :
        (w : World)
        → x.bcrypt_generate (w.uuids (w.drawn)) cfg.cost (password ++ cfg.pepper) ≡ none
        → (AuthService.signup x cfg email username fullname password w).1.db.quotas ≡ w.db.quotas
    unfolding AuthService.signup AuthService.signup_user
    unhashed w e = ground arith

    signup-AreWithin : Keeps AreWithin (AuthService.signup x cfg email username fullname password)
    signup-AreWithin w h =
        elim (Option-cases
          (x.bcrypt_generate (w.uuids w.drawn) cfg.cost (password ++ cfg.pepper))) [
            | inl e ↦ rw (unhashed w e) h
            | inr (hash, e) ↦
                registered-AreWithin hash w
                  (AuthService.signup x cfg email username fullname password w)
                  (Signup.signup-Registers x cfg email username fullname password hash w e) h
          ]

  -- One step of the system: a call that writes to the table, or something else. The processor of
  -- a conversion has no access to the tables.
  pub data Step (w w' : World) : Type 0 where
    signup :
        (email username fullname password : Text)
        → w' ≡ (AuthService.signup x cfg email username fullname password w).1
        → Step w w'
    process :
        (processor : VideoMessage → Io JobResult) (text_of : Error → Text) (msg : VideoMessage)
        → ((v : World) → (processor msg v).1.db ≡ v.db)
        → w' ≡ (Run.process x processor text_of msg w).1
        → Step w w'
    delete_user : (id pass : Text) → w' ≡ (Service.delete_user x cfg id pass w).1 → Step w w'
    other : w'.db.quotas ≡ w.db.quotas → Step w w'

  pub data Reach (w : World) : World → Type 0 where
    here : Reach w w
    next : {u v : World} → Reach w u → Step u v → Reach w v

  Step-AreWithin : (w w' : World) → Step w w' → AreWithin w → AreWithin w'
  Step-AreWithin w w' (signup e u f p eq) h = rw eq (signup-AreWithin e u f p w h)
  Step-AreWithin w w' (process processor text_of msg good eq) h =
      rw eq (process-AreWithin x processor text_of msg (λ v k. rw (good v) k) w h)
  Step-AreWithin w w' (delete_user id pass eq) h = rw eq (delete_user-AreWithin id pass w h)
  Step-AreWithin w w' (other same) h = rw same h

  -- Whatever sign-ups, conversions and deletions of accounts run one after the other, with anything
  -- between them that leaves the table of quotas alone, and whatever fails: no row of it ever
  -- counts more GIFs than its limit, and none ever has a byte in use, if the table began so and the
  -- processor leaves the tables alone.
  pub Reach-AreWithin : (w w' : World) → Reach w w' → AreWithin w → AreWithin w'
  Reach-AreWithin w _ here h = h
  Reach-AreWithin w _ (next {u = u} {v = v} r st) h =
      Step-AreWithin u v st (Reach-AreWithin w u r h)
