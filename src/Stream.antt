-- ===== src/Stream.antt =====
-- std::getline and the extractions of std::istream, as the readers of the hosts file
-- (template_cpp/src/include/parser.hpp) and of the configuration
-- (template_cpp/src/src/process_controller.cpp) use them.
pub mod Tokens
use localized_causal_broadca.Prelude.{
  ℕ, zero, suc, ◌+◌, ◌-◌, ◌*◌, ◌%◌, Bool, true, false, not, ◌&&◌, ◌||◌, List, [], ◌∷◌, ◌==◌, leb,
  ltb, if◌then◌else◌,
}
use localized_causal_broadca.Decimal.{Bytes, is_digit, is_space, number, skip_spaces}

-- The bytes that are left, and the two state bits that extraction sets.
pub record Stream : Type 0 where
  pub rest : Bytes
  pub eof : Bool
  pub fail : Bool

abbrev pub open_stream : Bytes → Stream
open_stream s = record { rest = s; eof = false; fail = false }

-- the digits in front, and what follows them
unfoldable pub span_digits : Bytes → Bytes × Bytes
span_digits [] = ([], [])
span_digits (c ∷ s) =
    let (ds, rest) = span_digits s in if is_digit c then (c ∷ ds, rest) else ([], c ∷ s)

-- the token in front, up to a blank, and what follows it
unfoldable pub span_token : Bytes → Bytes × Bytes
span_token [] = ([], [])
span_token (c ∷ s) =
    let (cs, rest) = span_token s in if is_space c then ([], c ∷ s) else (c ∷ cs, rest)

abbrev pub is_empty : Bytes → Bool
is_empty [] = true
is_empty (c ∷ s) = false

-- What num_get reads for an unsigned type with `size` values: an optional sign and digits. With no
-- digit it stores 0, and above the range the largest value, and sets failbit in both cases; a
-- number behind a minus is negated in unsigned arithmetic.
unfoldable pub digits_value : ℕ → Bool → Bytes → ℕ × Bool
digits_value size negative [] = (0, true)
digits_value size negative (c ∷ ds) =
    let n = number 0 (c ∷ ds) in
    if ltb n size then ((if negative then (size - n) % size else n), false) else (size - 1, true)

unfoldable pub read_digits : ℕ → Bool → Bytes → Stream × ℕ
unfolding digits_value
read_digits size negative s =
    let (ds, rest) = span_digits s in
    let (value, failed) = digits_value size negative ds in
    (record { rest = rest; eof = is_empty rest; fail = failed }, value)

unfoldable pub read_signed : ℕ → Bytes → Stream × ℕ
unfolding read_digits
read_signed size [] = (record { rest = []; eof = true; fail = true }, 0)
read_signed size (c ∷ s) =
    if c == b'-'
    then read_digits size true s
    else if c == b'+'
    then read_digits size false s
    else read_digits size false (c ∷ s)

-- `stream >> variable`: where the stream is not good, or has only blanks left, the variable keeps
-- its value.
unfoldable pub read_unsigned : ℕ → Stream → ℕ → Stream × ℕ
unfolding read_signed
read_unsigned size i variable =
    let s = skip_spaces i.rest in
    if i.eof || i.fail
    then (record i { fail = true }, variable)
    else if is_empty s
    then (record { rest = []; eof = true; fail = true }, variable)
    else read_signed size s

-- the same for a std::string
unfoldable pub read_string : Stream → Bytes → Stream × Bytes
read_string i variable =
    let s = skip_spaces i.rest in
    let (token, rest) = span_token s in
    if i.eof || i.fail
    then (record i { fail = true }, variable)
    else if is_empty s
    then (record { rest = []; eof = true; fail = true }, variable)
    else (record { rest = rest; eof = is_empty rest; fail = false }, token)

-- a byte more in front of the first line
in_front : ℕ → List Bytes → List Bytes
in_front c [] = (c ∷ []) ∷ []
in_front c (line ∷ rest) = (c ∷ line) ∷ rest

-- The lines that repeated std::getline gives; a newline at the end of the file starts no other.
unfoldable pub lines : Bytes → List Bytes
unfolding in_front
lines [] = []
lines (c ∷ s) = let rest = lines s in if c == b'\n' then [] ∷ rest else in_front c rest
