-- ===== src/Share/Link.antt =====
-- The links that `CreateByToken` mails: internal/app/share/create_by_token.go, get_by_token.go and
-- download.go with the queries on share_tokens.
use ffgif.Base.{
  ℕ, ◌≡◌, ap, ◌∙◌, refl, sym, subst, codes, ◌++◌, Bool, true, false, Option, none, some, List, [],
  ◌∷◌, arith, Text, text_eq, find?, any, update_where, any-append,
}
use ffgif.World.Mails.{append_last}
use ffgif.Auth.Service.{email_of}
use ffgif.World.{
  Db, World, EmailMessage, ok, err, External, ShareByToken, known, no_rows, share_not_found,
}
use ffgif.Share.Repo
use ffgif.Share.Service
use ffgif.Share.Service.{new_link}

abbrev pub has_token : Text → ShareByToken → Bool
has_token t s = text_eq s.token t

closed :
    (t : Text) (now : ℕ) (db : Db) (ss : List ShareByToken)
    → any (has_token t) ss ≡ false
    → find? (Repo.opens t now db) ss ≡ none
unfolding any find?
closed t now db [] h = refl
closed t now db (s ∷ ss) h = ground (arith, closed t now db ss)

any-extend :
    (p : ShareByToken → Bool) (t : Text) (e : Option ℕ) (ss : List ShareByToken)
    → any (has_token t) (update_where p (λ s. record s { expires_at = e }) ss)
      ≡ any (has_token t) ss
unfolding any update_where
any-extend p t e [] = refl
any-extend p t e (s ∷ ss) = ground (arith, any-extend p t e ss)

module _ (x : External) (w : World) where
  -- The token of the next link, which is mailed and returned.
  abbrev pub raw : Text
  raw = x.uuid_string (w.uuids w.drawn)

  create_by_token-has_token :
      (user key email : Text) (until : ℕ)
      → any (has_token raw) w.db.share_tokens ≡ false
      → text_eq (x.sha256_hex raw) raw ≡ false
      → any (has_token raw) (Service.create_by_token x user key email until w).1.db.share_tokens
        ≡ false
  unfolding Service.create_by_token any
  create_by_token-has_token user key email until h d = ground (
    arith,
    any-extend (Repo.is_link_to key email) raw (some until) w.db.share_tokens,
    any-append (has_token raw) w.db.share_tokens
        (record (new_link key (x.sha256_hex raw) email until) { created_at = w.now } ∷ []),
  )

module _ (x : External) where
  -- A `CreateByToken` that succeeds returns the token, and the only mail that it publishes has it.
  create_by_token-mails :
      (user key email : Text) (until : ℕ) (token : Text) (mail : EmailMessage) (w : World)
      → (Service.create_by_token x user key email until w).0 ≡ ok token
      → (Service.create_by_token x user key email until w).1.emails ≡ w.emails ++ mail ∷ []
      → (token ≡ raw x w) × (mail.token ≡ raw x w)
  unfolding Service.create_by_token
  create_by_token-mails user key email until token mail w done sent =
      ground (arith, append_last w.emails (email_of email (codes "share") (raw x w)) mail)

  link_refused :
      (token : Text) (v : World)
      → any (has_token token) v.db.share_tokens ≡ false
      → v.outage v.calls ≡ none
      → ((Service.get_by_token x token v).0 ≡ err (known no_rows))
        × ((Service.download_by_token x token v).0 ≡ err (known share_not_found))
        × ((Service.download_by_token x token v).1.db ≡ v.db)
  unfolding Service.get_by_token Service.download_by_token
  link_refused token v h up = ground (arith, closed token v.now v.db v.db.share_tokens h)

  -- The link that `CreateByToken` mails and returns does not open: if the call returns `token` and
  -- `mail` is the message that it has put into the queue, then the mail has this token, and the
  -- token, which is not its own hash and which no row held before, is found neither by `GetByToken` nor by `DownloadByToken`,
  -- at any time, since they look the token up as it is among the hashes. `v` is any world with the
  -- table `share_tokens` that the call left, in which the first call goes through.
  pub mailed_link-refused :
      (user key email : Text) (until : ℕ) (token : Text) (mail : EmailMessage) (w v : World)
      → (Service.create_by_token x user key email until w).0 ≡ ok token
      → (Service.create_by_token x user key email until w).1.emails ≡ w.emails ++ mail ∷ []
      → any (has_token token) w.db.share_tokens ≡ false
      → text_eq (x.sha256_hex token) token ≡ false
      → v.db.share_tokens ≡ (Service.create_by_token x user key email until w).1.db.share_tokens
      → v.outage v.calls ≡ none
      → (mail.token ≡ token)
        × ((Service.get_by_token x token v).0 ≡ err (known no_rows))
        × ((Service.download_by_token x token v).0 ≡ err (known share_not_found))
        × ((Service.download_by_token x token v).1.db ≡ v.db)
  mailed_link-refused user key email until token mail w v done sent h d same up =
      let (e, e') = create_by_token-mails user key email until token mail w done sent in
      let absent =
        create_by_token-has_token x w user key email until
          (subst (λ (t : Text). any (has_token t) w.db.share_tokens ≡ false) e h)
          (subst (λ (t : Text). text_eq (x.sha256_hex t) t ≡ false) e d) in
      let ss = (Service.create_by_token x user key email until w).1.db.share_tokens in
      let unknown : any (has_token token) v.db.share_tokens ≡ false =
        ap (any (has_token token)) same
        ∙ subst (λ (t : Text). any (has_token t) ss ≡ false) (sym e) absent in
      let (closed_get, closed_download, same_db) = link_refused token v unknown up in
      (e' ∙ sym e, closed_get, closed_download, same_db)

  -- A second link for the same GIF and address never holds its own token, in any form: the row
  -- keeps the hash of the first link, so the new hash, which no row held, is in no row either.
  pub second_link-unstored :
      (user key email : Text) (until : ℕ) (w : World)
      → any (Repo.is_link_to key email) w.db.share_tokens ≡ true
      → any (has_token (x.sha256_hex (raw x w))) w.db.share_tokens ≡ false
      → any
          (has_token (x.sha256_hex (raw x w)))
          (Service.create_by_token x user key email until w).1.db.share_tokens
        ≡ false
  unfolding Service.create_by_token
  second_link-unstored user key email until w old fresh = ground (
    arith,
    any-extend (Repo.is_link_to key email) (x.sha256_hex (raw x w)) (some until) w.db.share_tokens,
  )
