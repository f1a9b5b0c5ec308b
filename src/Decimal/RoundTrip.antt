-- ===== src/Decimal/RoundTrip.antt =====
-- What is read back from a printed number, and of which bytes the print consists.
use localized_causal_broadca.Prelude.{
  ℕ, zero, suc, ◌+◌, ◌/◌, ◌%◌, ◌^◌, ◌≤◌, ◌<◌, ◌≡◌, [], ◌∷◌, arith, word_size, All, ok, length,
}
use native.Mathlib.Nat.{pow-suc}
use localized_causal_broadca.Decimal.{Bytes, digits, to_string, number, magnitude, stoul}

abbrev pub IsDigit : ℕ → Type 0
IsDigit c = (b'0' ≤ c) × (c ≤ b'9')

digits-All : (f n : ℕ) (out : Bytes) → All IsDigit out → All IsDigit (digits f n out)
unfolding digits
digits-All zero n out h = h
digits-All (suc f) n out h = ground (arith, digits-All f (n / 10) ((b'0' + n % 10) ∷ out))

length-digits : (f n : ℕ) (out : Bytes) → 0 < f → length out < length (digits f n out)
unfolding digits
length-digits zero n out h = elim h [ ]
length-digits (suc zero) n out h = ground arith
length-digits (suc (suc f)) n out h =
    ground (arith, length-digits (suc f) (n / 10) ((b'0' + n % 10) ∷ out))

number-digits : (f n : ℕ) (out : Bytes) → n < f → number 0 (digits f n out) ≡ number n out
unfolding digits number
number-digits zero n out h = elim h [ ]
number-digits (suc f) n out h = ground (arith, number-digits f (n / 10) ((b'0' + n % 10) ∷ out))

pub to_string-All : (n : ℕ) → All IsDigit (to_string n)
unfolding to_string
to_string-All n = digits-All (n + 1) n [] tt

pub length-to_string : (n : ℕ) → 0 < length (to_string n)
unfolding to_string
length-to_string n = length-digits (n + 1) n [] (omega arith)

pub number-to_string : (n : ℕ) → number 0 (to_string n) ≡ n
unfolding to_string number
number-to_string n = number-digits (n + 1) n [] (omega arith)

pub stoul_digits :
    (s : Bytes) → All IsDigit s → 0 < length s → number 0 s < word_size → stoul s ≡ ok (number 0 s)
unfolding stoul magnitude
stoul_digits [] a l b = elim l [ ]
stoul_digits (c ∷ s) (d, a) l b = ground arith

-- Every size_t is read back from its print.
pub stoul-to_string : (n : ℕ) → n < word_size → stoul (to_string n) ≡ ok n
stoul-to_string n h = rw (
  stoul_digits (to_string n) (to_string-All n) (length-to_string n) (rw number-to_string h),
  number-to_string,
)

length-digits_le :
    (k f n : ℕ) (out : Bytes) → n < 10 ^ suc k → length (digits f n out) ≤ suc k + length out
unfolding digits
length-digits_le k zero n out h = omega arith
length-digits_le zero (suc f) n out h = ground arith
length-digits_le (suc k) (suc f) n out h = ground (
  arith,
  length-digits_le k f (n / 10) ((b'0' + n % 10) ∷ out) (omega (arith, pow-suc 10 (suc k))),
)

-- A number below 10 ^ (k + 1) has at most k + 1 digits.
pub length-to_string_le : (k n : ℕ) → n < 10 ^ suc k → length (to_string n) ≤ suc k
unfolding to_string
length-to_string_le k n h = omega (arith, length-digits_le k (n + 1) n [] h)
