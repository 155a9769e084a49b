-- ===== src/Bootstrap/Literal.antt =====
-- How PostgreSQL reads what internal/infra/postgres/migration.go writes: a quoted literal, whose
-- quotes are doubled, and the body of a DO, which ends with the next `$$`. Of the dollar, 36, and
-- the quote, 39.
use ffgif.Base.{
  ℕ, ◌==◌, ◌≡◌, refl, sym, ap, ◌∙◌, Bool, true, false, ◌&&◌, ◌||◌, Option, none, some, [], ◌∷◌,
  ◌++◌, arith, Text, codes, if◌then◌else◌, contains_byte, drop,
}
use ffgif.Configuration.{PostgreSql}
use ffgif.Bootstrap.Database
use ffgif.Bootstrap.Database.{quoted}

abbrev with_char : ℕ → Option (Text × Text) → Option (Text × Text)
with_char c none = none
with_char c (some (s, rest)) = some (c ∷ s, rest)

-- The rest of a literal, after a quote that may be its last or not: its text, and what follows.
abbrev pub read_literal : Bool → Text → Option (Text × Text)
read_literal false [] = none
read_literal true [] = some ([], [])
read_literal false (c ∷ s) =
    let ended = read_literal true s in
    let more = with_char c (read_literal false s) in if c == 39 then ended else more
read_literal true (c ∷ s) =
    let more = with_char 39 (read_literal false s) in if c == 39 then more else some ([], c ∷ s)

abbrev pub IsNoQuote : Text → Type 0
IsNoQuote [] = Unit
IsNoQuote (c ∷ s) = (c == 39) ≡ false

literal_ends : (rest : Text) → IsNoQuote rest → read_literal true rest ≡ some ([], rest)
literal_ends [] h = refl
literal_ends (c ∷ rest) h = rw h

pub escape-read :
    (s rest : Text)
    → IsNoQuote rest
    → read_literal false (Database.escape s ++ 39 ∷ rest) ≡ some (s, rest)
unfolding Database.escape
escape-read [] rest h = literal_ends rest h
escape-read (c ∷ s) rest h = ground (arith, escape-read s rest h)

-- What stands before the next `$$`, and what after it.
abbrev pub until_dollars : Text → Option (Text × Text)
until_dollars [] = none
until_dollars (c ∷ []) = none
until_dollars (c ∷ d ∷ s) =
    let more = with_char c (until_dollars (d ∷ s)) in
    if (c == 36) && (d == 36) then some ([], s) else more

until_dollars-append :
    (s rest : Text)
    → contains_byte s 36 ≡ false
    → until_dollars (s ++ 36 ∷ 36 ∷ rest) ≡ some (s, rest)
unfolding contains_byte
until_dollars-append [] rest h = refl
until_dollars-append (c ∷ []) rest h = ground arith
until_dollars-append (c ∷ d ∷ s) rest h = ground (arith, until_dollars-append (d ∷ s) rest)

contains_byte-append :
    (c : ℕ) (s t : Text) → contains_byte (s ++ t) c ≡ (contains_byte s c || contains_byte t c)
unfolding contains_byte
contains_byte-append c [] t = refl
contains_byte-append c (a ∷ s) t = ground (arith, contains_byte-append c s t)

plain-append :
    (s t : Text)
    → contains_byte s 36 ≡ false
    → contains_byte t 36 ≡ false
    → contains_byte (s ++ t) 36 ≡ false
plain-append s t h k = rw (contains_byte-append 36 s t, h) k

contains_byte-escape :
    (s : Text) → contains_byte s 36 ≡ false → contains_byte (Database.escape s) 36 ≡ false
unfolding contains_byte Database.escape
contains_byte-escape [] h = refl
contains_byte-escape (c ∷ s) h = ground (arith, contains_byte-escape s)

-- What stands around the password in the block.
abbrev pub before_pass : (Text → Text) → PostgreSql → Text
before_pass quote_identifier cnf =
    codes "\n\t\tBEGIN\n\t\t\tIF NOT EXISTS (SELECT FROM pg_roles WHERE rolname = "
    ++ (quoted cnf.user
        ++ (codes ") THEN\n\t\t\t\tCREATE ROLE "
            ++ (quote_identifier cnf.user ++ codes " WITH LOGIN PASSWORD '")))

abbrev pub after_pass : Text
after_pass = codes "';\n\t\t\tEND IF;\n\t\tEND\n\t\t"

append_assoc : (a b c : Text) → (a ++ b) ++ c ≡ a ++ (b ++ c)
append_assoc [] b c = refl
append_assoc (x ∷ a) b c = ap (λ (t : Text). x ∷ t) (append_assoc a b c)

escape-append : (s t : Text) → Database.escape (s ++ t) ≡ Database.escape s ++ Database.escape t
unfolding Database.escape
escape-append [] t = refl
escape-append (c ∷ s) t = ground (arith, escape-append s t)

escaped_at :
    (a b end : Text)
    → Database.escape (a ++ 36 ∷ 36 ∷ b) ++ end
      ≡ Database.escape a ++ 36 ∷ 36 ∷ (Database.escape b ++ end)
unfolding Database.escape
escaped_at a b end =
    ap (λ (t : Text). t ++ end) (escape-append a (36 ∷ 36 ∷ b))
    ∙ append_assoc (Database.escape a) (36 ∷ 36 ∷ Database.escape b) end

-- The text of a statement behind `DO $$`.
abbrev pub do_body : (Text → Text) → PostgreSql → Text
do_body quote_identifier cnf = drop 8 (Database.role_statement quote_identifier cnf)

-- What follows a `$$` in the password.
abbrev pub tail_of : Text → Text
tail_of b = Database.escape b ++ (after_pass ++ codes "$$;\n\t")

module _ (quote_identifier : Text → Text) (cnf : PostgreSql)
    (plain_user : contains_byte cnf.user 36 ≡ false)
    (plain_quoted : contains_byte (quote_identifier cnf.user) 36 ≡ false) where
  before_pass-plain : contains_byte (before_pass quote_identifier cnf) 36 ≡ false
  unfolding contains_byte
  before_pass-plain =
      let user = contains_byte-escape cnf.user plain_user in
      let as_literal =
        plain-append (39 ∷ Database.escape cnf.user) (39 ∷ []) (ground (arith, user)) refl in
      let named =
        plain-append (quote_identifier cnf.user) (codes " WITH LOGIN PASSWORD '") plain_quoted
          refl in
      let rest = quote_identifier cnf.user ++ codes " WITH LOGIN PASSWORD '" in
      plain-append (quoted cnf.user) (codes ") THEN\n\t\t\t\tCREATE ROLE " ++ rest) as_literal named

  role_block_lem :
      Database.role_block quote_identifier cnf
      ≡ before_pass quote_identifier cnf ++ (Database.escape cnf.pass ++ after_pass)
  unfolding Database.role_block
  role_block_lem = simp append_assoc

  body_lem :
      (tail : Text)
      → Database.role_block quote_identifier cnf ++ tail
        ≡ before_pass quote_identifier cnf ++ (Database.escape cnf.pass ++ (after_pass ++ tail))
  body_lem tail = rw role_block_lem (simp append_assoc)

  body_start :
      do_body quote_identifier cnf ≡ Database.role_block quote_identifier cnf ++ codes "$$;\n\t"
  unfolding Database.role_statement
  body_start = refl

  block-plain :
      contains_byte cnf.pass 36 ≡ false
      → contains_byte (Database.role_block quote_identifier cnf) 36 ≡ false
  unfolding contains_byte
  block-plain h = rw role_block_lem (
      plain-append (before_pass quote_identifier cnf) (Database.escape cnf.pass ++ after_pass)
        before_pass-plain
        (plain-append (Database.escape cnf.pass) after_pass (contains_byte-escape cnf.pass h) refl))

  -- PostgreSQL reads back what `SetupDatabase` has written: where the quoted user holds no dollar and
  -- the password holds none, the body of the DO is the whole block, up to the `$$` at its end, and the
  -- literal behind PASSWORD is the password, whatever quotes it holds.
  pub role_statement-read :
      contains_byte cnf.pass 36 ≡ false
      → (until_dollars (do_body quote_identifier cnf)
          ≡ some (
            before_pass quote_identifier cnf ++ (Database.escape cnf.pass ++ after_pass),
            codes ";\n\t",
          ))
        × (read_literal false (Database.escape cnf.pass ++ after_pass)
            ≡ some (cnf.pass, codes ";\n\t\t\tEND IF;\n\t\tEND\n\t\t"))
  role_statement-read h =
      let block = Database.role_block quote_identifier cnf in
      (
        rw body_start (
            rw (until_dollars-append block (codes ";\n\t") (block-plain h))
              (ap (λ (t : Text). some (t, codes ";\n\t")) role_block_lem)),
        escape-read cnf.pass (codes ";\n\t\t\tEND IF;\n\t\tEND\n\t\t") refl,
      )

  split_body :
      (a b : Text)
      → cnf.pass ≡ a ++ 36 ∷ 36 ∷ b
      → do_body quote_identifier cnf
        ≡ (before_pass quote_identifier cnf ++ Database.escape a) ++ 36 ∷ 36 ∷ tail_of b
  split_body a b h =
      let before = before_pass quote_identifier cnf in
      let end = after_pass ++ codes "$$;\n\t" in
      let inner = ap (λ (t : Text). Database.escape t ++ end) h ∙ escaped_at a b end in
      body_start
      ∙ body_lem (codes "$$;\n\t")
      ∙ ap (λ (t : Text). before ++ t) inner
      ∙ sym (append_assoc before (Database.escape a) (36 ∷ 36 ∷ tail_of b))

  -- A password with two dollars side by side ends the body inside its literal: the server takes the
  -- text up to them for the block, and what follows them for SQL.
  role_statement-broken :
      (a b : Text)
      → cnf.pass ≡ a ++ 36 ∷ 36 ∷ b
      → contains_byte a 36 ≡ false
      → until_dollars (do_body quote_identifier cnf)
        ≡ some (before_pass quote_identifier cnf ++ Database.escape a, tail_of b)
  role_statement-broken a b h k =
      let before = before_pass quote_identifier cnf in
      let plain =
        plain-append before (Database.escape a) before_pass-plain (contains_byte-escape a k) in
      ap until_dollars (split_body a b h)
      ∙ until_dollars-append (before ++ Database.escape a) (tail_of b) plain
