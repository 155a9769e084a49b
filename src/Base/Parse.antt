-- ===== src/Base/Parse.antt =====
-- Functions of the Go standard library on strings, as the program calls them: path/filepath.Ext,
-- strings.Split, strings.TrimSuffix, strconv.ParseInt and net/url.QueryUnescape.
use Prim.Native.Nat.{ℕ, ◌+◌, ◌-◌, ◌*◌, ◌^◌}
use mathlib.Core.Path.{◌≡◌}
use mathlib.Core.Bool.{Bool, true, false, ◌&&◌}
use mathlib.Core.Option.{Option, none, some}
use mathlib.Core.List.{[], ◌∷◌, ◌++◌}
use native.Mathlib.Omega.{arith}
use ffgif.Base.Tests.{ltb, leb, ◌==◌, if◌then◌else◌}
use ffgif.Base.Strings.{Text, contains_byte}
use ffgif.Base.Int.{ℤ, pos, negsuc}

-- filepath.Ext: from the last dot (46) on, if no slash (47) follows it.
unfoldable pub file_ext : Text → Text
unfolding contains_byte
file_ext [] = []
file_ext (c ∷ s) =
    let rest = file_ext s in
    if contains_byte s 47
    then rest
    else elim rest [ [] ↦ if c == 46 then c ∷ s else [] | a ∷ t ↦ a ∷ t ]

-- strings.Split(s, c)[0] for a separator of one byte.
unfoldable pub before : ℕ → Text → Text
before c [] = []
before c (a ∷ s) = let rest = before c s in if a == c then [] else a ∷ rest

pub before-append : (c : ℕ) (s t : Text) → contains_byte s c ≡ false → before c (s ++ c ∷ t) ≡ s
unfolding before contains_byte
before-append c [] t h = ground arith
before-append c (a ∷ s) t h = ground (arith, before-append c s t)

pub contains_byte-append : (s t : Text) (c : ℕ) → contains_byte (s ++ c ∷ t) c ≡ true
unfolding contains_byte
contains_byte-append [] t c = ground arith
contains_byte-append (a ∷ s) t c = ground (arith, contains_byte-append s t c)

-- The value of a text of decimal digits, after the value of what stands before it.
unfoldable pub digits : ℕ → Text → Option ℕ
digits n [] = some n
digits n (d ∷ s) =
    let rest = digits (n * 10 + (d - 48)) s in if leb 48 d && leb d 57 then rest else none

abbrev in_range : Bool → ℕ → Option ℕ → Option ℤ
in_range minus bound none = none
in_range true bound (some n) =
    if leb n bound then some (if n == 0 then pos 0 else negsuc (n - 1)) else none
in_range false bound (some n) = if ltb n bound then some (pos n) else none

-- One digit at least.
abbrev digits_of : Text → Option ℕ
digits_of [] = none
digits_of (d ∷ s) = digits 0 (d ∷ s)

-- strconv.ParseInt(s, 10, bits): a sign (43, 45), then digits, within the range of that many bits.
unfoldable pub parse_int : ℕ → Text → Option ℤ
unfolding digits
parse_int bits [] = none
parse_int bits (c ∷ s) =
    if c == 45
    then in_range true (2 ^ (bits - 1)) (digits_of s)
    else if c == 43
    then in_range false (2 ^ (bits - 1)) (digits_of s)
    else in_range false (2 ^ (bits - 1)) (digits_of (c ∷ s))

abbrev hex_digit : ℕ → Option ℕ
hex_digit c =
    if leb 48 c && leb c 57
    then some (c - 48)
    else if leb 65 c && leb c 70
    then some (c - 55)
    else if leb 97 c && leb c 102
    then some (c - 87)
    else none

abbrev pub cons_to : ℕ → Option Text → Option Text
cons_to c none = none
cons_to c (some t) = some (c ∷ t)

abbrev hex_byte : ℕ → ℕ → Option Text → Option Text
hex_byte a b rest = elim (hex_digit a) [
  | none ↦ none
  | some h ↦ elim (hex_digit b) [ none ↦ none | some l ↦ cons_to (h * 16 + l) rest ]
]

-- url.QueryUnescape: "%" (37) with two hexadecimal digits is a byte, "+" (43) is a space (32).
unfoldable pub query_unescape : Text → Option Text
query_unescape [] = some []
query_unescape (c ∷ []) = if c == 37 then none else some ((if c == 43 then 32 else c) ∷ [])
query_unescape (c ∷ a ∷ []) =
    let rest = query_unescape (a ∷ []) in
    if c == 37 then none else cons_to (if c == 43 then 32 else c) rest
query_unescape (c ∷ a ∷ b ∷ s) =
    let skipped = query_unescape s in
    let rest = query_unescape (a ∷ b ∷ s) in
    if c == 37 then hex_byte a b skipped else cons_to (if c == 43 then 32 else c) rest
