-- ===== src/Decimal.antt =====
-- std::to_string, std::stoul and std::stoi, as VectorClock (template_cpp/src/include/
-- vector_clock.hpp) and Packet (template_cpp/src/src/packet.cpp) use them. A string is the list of
-- its bytes, without the NULL behind it.
pub mod RoundTrip
use localized_causal_broadca.Prelude.{
  ℕ, zero, suc, ◌+◌, ◌-◌, ◌*◌, ◌/◌, ◌%◌, ◌≤◌, ◌^◌, ◌≡◌, refl, Bool, true, false, not, ◌&&◌, ◌||◌,
  List, [], ◌∷◌, ltb, leb, ◌==◌, if◌then◌else◌, word_size, Fault, invalid_argument, out_of_range,
  Result, ok, err,
}

abbrev pub Bytes : Type 0
Bytes = List ℕ

-- The last digit is written first; each round puts one more in front of it.
digits : ℕ → ℕ → Bytes → Bytes
digits zero n out = out
digits (suc fuel) n out =
    let rest = digits fuel (n / 10) ((b'0' + n % 10) ∷ out) in
    if ltb n 10 then (b'0' + n) ∷ out else rest

-- `n + 1` rounds are more than the digits of `n`.
unfoldable pub to_string : ℕ → Bytes
unfolding digits
to_string n = digits (n + 1) n []

abbrev pub is_digit : ℕ → Bool
is_digit c = leb b'0' c && leb c b'9'

-- isspace, in the C locale
abbrev pub is_space : ℕ → Bool
is_space c = c == 32 || (leb 9 c && leb c 13)

-- the number that the leading digits spell behind `n`, with no bound
unfoldable pub number : ℕ → Bytes → ℕ
number n [] = n
number n (c ∷ s) = let rest = number (n * 10 + (c - b'0')) s in if is_digit c then rest else n

-- A numeral in front of anything else; the magnitude is held to `limit`.
magnitude : ℕ → Bytes → Result ℕ
unfolding number
magnitude limit [] = err invalid_argument
magnitude limit (c ∷ s) =
    let n = number 0 (c ∷ s) in
    if is_digit c then (if leb n limit then ok n else err out_of_range) else err invalid_argument

unfoldable pub skip_spaces : Bytes → Bytes
skip_spaces [] = []
skip_spaces (c ∷ s) = let rest = skip_spaces s in if is_space c then rest else c ∷ s

-- strtoul reads a sign, and negates in unsigned arithmetic.
negated : Result ℕ → Result ℕ
negated (ok n) = ok ((word_size - n) % word_size)
negated (err e) = err e

signed : Bytes → Result ℕ
unfolding magnitude negated
signed [] = err invalid_argument
signed (c ∷ s) =
    if c == b'-'
    then negated (magnitude (word_size - 1) s)
    else if c == b'+'
    then magnitude (word_size - 1) s
    else magnitude (word_size - 1) (c ∷ s)

unfoldable pub stoul : Bytes → Result ℕ
unfolding signed skip_spaces
stoul s = signed (skip_spaces s)

nonzero : Result ℕ → Result Bool
nonzero (ok n) = ok (not (n == 0))
nonzero (err e) = err e

signed_int : Bytes → Result Bool
unfolding magnitude nonzero
signed_int [] = err invalid_argument
signed_int (c ∷ s) =
    if c == b'-'
    then nonzero (magnitude (2 ^ 31) s)
    else if c == b'+'
    then nonzero (magnitude (2 ^ 31 - 1) s)
    else nonzero (magnitude (2 ^ 31 - 1) (c ∷ s))

-- static_cast<bool>(std::stoi(s)), for a 32-bit int
unfoldable pub stoi_bool : Bytes → Result Bool
unfolding signed_int skip_spaces
stoi_bool s = signed_int (skip_spaces s)
