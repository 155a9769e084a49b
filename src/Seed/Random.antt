-- ===== src/Seed/Random.antt =====
-- What cmd/bootstrap/cmd/seed.go draws, and how it prints numbers. A draw of math/rand/v2 is a
-- number of 64 bits for a place in the code and two loop counters there; the token that crypto/rand
-- gives for a GIF is a text.
use ffgif.Base.{
  ℕ, zero, suc, ◌+◌, ◌/◌, ◌%◌, ◌^◌, ltb, leb, ◌&&◌, Bool, List, [], ◌∷◌, ◌++◌, Option, none, some,
  Text, if◌then◌else◌,
}

pub data Place : Type 0 where
  first_name last_name past_days past_seconds num_gifs adjective noun status_roll downloads : Place
  after_user num_friends target pending_roll friend_age sample expiry_roll share_age : Place
  token_roll token_age : Place

pub record Random : Type 0 where
  pub draw : Place → ℕ → ℕ → ℕ
  -- the hexadecimal digits of the 16 bytes for the GIF with this index
  pub token : ℕ → Text

-- mrand.IntN(n), by the draw
abbrev pub int_n : ℕ → ℕ → ℕ
int_n n r = r % n

-- mrand.Float64() is k / 2^53 for this k.
abbrev pub float_bits : ℕ → ℕ
float_bits r = r % 2 ^ 53

-- `xs[i]`, where the index is in range or nothing is done
abbrev pub get_or : Text → List Text → ℕ → Text
get_or d [] i = d
get_or d (x ∷ xs) zero = x
get_or d (x ∷ xs) (suc i) = get_or d xs i

abbrev pub get_elem? : {A : Type 0} → List A → ℕ → Option A
get_elem? [] i = none
get_elem? (x ∷ xs) zero = some x
get_elem? (x ∷ xs) (suc i) = get_elem? xs i

-- `%d`, for the numbers of an int: they have at most 20 digits.
decimal_from : ℕ → ℕ → Text
decimal_from zero n = []
decimal_from (suc f) n =
    let rest = decimal_from f (n / 10) ++ (48 + n % 10) ∷ [] in
    if ltb n 10 then (48 + n) ∷ [] else rest

unfoldable pub decimal : ℕ → Text
unfolding decimal_from
decimal n = decimal_from 20 n

abbrev is_upper : ℕ → Bool
is_upper c = leb 65 c && leb c 90

-- strings.ToLower on ASCII letters
unfoldable pub to_lower : Text → Text
to_lower [] = []
to_lower (c ∷ s) = (if is_upper c then c + 32 else c) ∷ to_lower s
