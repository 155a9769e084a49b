-- ===== src/Base/Strings.antt =====
-- Go strings as lists of bytes, with the functions of package strings that the program calls.
use Prim.Native.Nat.{ℕ}
use Prim.Native.Char.{code}
use Prim.Native.String.{String}
use mathlib.Core.Path.{◌≡◌, refl}
use mathlib.Core.Logic.{◌↔◌}
use mathlib.Core.Bool.{Bool, true, false, ◌&&◌, ◌||◌}
use mathlib.Core.List.{List, [], ◌∷◌, ◌++◌}
use native.Mathlib.Omega.{arith}
use ffgif.Base.Tests.{◌==◌, if◌then◌else◌}

abbrev pub Text : Type 0
Text = List ℕ

-- The bytes of an ASCII literal.
abbrev pub codes : String → Text
codes String.[] = []
codes (String.◌∷◌ c s) = code c ∷ codes s

-- Go's `==` on strings.
unfoldable pub text_eq : Text → Text → Bool
text_eq [] [] = true
text_eq (a ∷ s) (b ∷ t) = (a == b) && text_eq s t
text_eq _ _ = false

pub text_eq→eq : (s t : Text) → text_eq s t ≡ true → s ≡ t
unfolding text_eq
text_eq→eq [] [] h = refl
text_eq→eq (a ∷ s) (b ∷ t) h = ground (arith, text_eq→eq s t)
text_eq→eq [] (b ∷ t) h = ground arith
text_eq→eq (a ∷ s) [] h = ground arith

pub text_eq_refl : (s : Text) → text_eq s s ≡ true
unfolding text_eq
text_eq_refl [] = refl
text_eq_refl (a ∷ s) = ground (arith, text_eq_refl s)

pub eq→text_eq : (s t : Text) → s ≡ t → text_eq s t ≡ true
eq→text_eq s t h = ground (arith, text_eq_refl s)

pub text_eq_iff : (s t : Text) → (text_eq s t ≡ true) ↔ (s ≡ t)
text_eq_iff s t = (text_eq→eq s t, eq→text_eq s t)

-- strings.HasPrefix(s, p)
unfoldable pub has_prefix : Text → Text → Bool
has_prefix s [] = true
has_prefix [] (b ∷ p) = false
has_prefix (a ∷ s) (b ∷ p) = (a == b) && has_prefix s p

abbrev pub drop_prefix : Text → Text → Text
drop_prefix s [] = s
drop_prefix [] (b ∷ p) = []
drop_prefix (a ∷ s) (b ∷ p) = drop_prefix s p

-- strings.TrimPrefix(s, p)
unfoldable pub trim_prefix : Text → Text → Text
unfolding has_prefix
trim_prefix s p = if has_prefix s p then drop_prefix s p else s

-- strings.Contains(s, c) for a text c of one byte.
unfoldable pub contains_byte : Text → ℕ → Bool
contains_byte [] c = false
contains_byte (a ∷ s) c = (a == c) || contains_byte s c

drop_prefix-append : (p s : Text) → drop_prefix (p ++ s) p ≡ s
drop_prefix-append [] s = refl
drop_prefix-append (a ∷ p) s = drop_prefix-append p s

pub has_prefix-append : (p s : Text) → has_prefix (p ++ s) p ≡ true
unfolding has_prefix
has_prefix-append [] s = refl
has_prefix-append (a ∷ p) s = ground (arith, has_prefix-append p s)

pub trim_prefix-append : (p s : Text) → trim_prefix (p ++ s) p ≡ s
unfolding trim_prefix
trim_prefix-append p s = rw (has_prefix-append p s) (drop_prefix-append p s)
