-- ===== src/Stream/Tokens.antt =====
-- What is read back of printed numbers and of lines.
use localized_causal_broadca.Prelude.{
  ℕ, ◌<◌, ◌≡◌, refl, ap, ◌∙◌, true, false, [], ◌∷◌, ◌++◌, arith, ◌==◌, lt→ltb, All, length,
}
use localized_causal_broadca.Decimal.{Bytes, is_space, to_string, number, skip_spaces}
use localized_causal_broadca.Decimal.RoundTrip.{
  IsDigit, to_string-All, length-to_string, number-to_string,
}
use localized_causal_broadca.Stream.{
  span_digits, span_token, is_empty, read_digits, read_signed, read_unsigned, open_stream,
  read_string, lines,
}

-- what ends a token: a blank, or the end of the line
abbrev pub Ends : Bytes → Type 0
Ends [] = Unit {0}
Ends (c ∷ s) = is_space c ≡ true

span_digits-append :
    (ds rest : Bytes) → All IsDigit ds → Ends rest → span_digits (ds ++ rest) ≡ (ds, rest)
unfolding span_digits
span_digits-append [] [] d e = refl
span_digits-append [] (c ∷ rest) d e = ground arith
span_digits-append (c ∷ ds) rest (d, h) e = ground (arith, span_digits-append ds rest h e)

pub skip_spaces-digit :
    (ds rest : Bytes) → All IsDigit ds → 0 < length ds → skip_spaces (ds ++ rest) ≡ ds ++ rest
unfolding skip_spaces
skip_spaces-digit [] rest d h = absurd (omega arith)
skip_spaces-digit (c ∷ ds) rest (d, a) h = ground arith

read_digits-append :
    (size : ℕ) (ds rest : Bytes)
    → All IsDigit ds
    → 0 < length ds
    → Ends rest
    → number 0 ds < size
    → read_digits size false (ds ++ rest)
      ≡ (record { rest = rest; eof = is_empty rest; fail = false }, number 0 ds)
unfolding read_digits
read_digits-append size [] rest d h e small = absurd (omega arith)
read_digits-append size (c ∷ ds) rest d h e small =
    rw (span_digits-append (c ∷ ds) rest d e) (rw (lt→ltb _ _ small) refl)

read_signed-digits :
    (size : ℕ) (ds rest : Bytes)
    → All IsDigit ds
    → 0 < length ds
    → read_signed size (ds ++ rest) ≡ read_digits size false (ds ++ rest)
unfolding read_signed
read_signed-digits size [] rest d h = absurd (omega arith)
read_signed-digits size (c ∷ ds) rest (d, a) h = ground arith

pub is_empty-append : (xs ys : Bytes) → 0 < length xs → is_empty (xs ++ ys) ≡ false
is_empty-append [] ys h = absurd (omega arith)
is_empty-append (x ∷ xs) ys h = refl

-- A printed number is read back, behind blanks or not.
pub read_unsigned-to_string :
    (size n variable : ℕ) (s rest : Bytes)
    → skip_spaces s ≡ skip_spaces (to_string n ++ rest)
    → n < size
    → Ends rest
    → read_unsigned size (open_stream s) variable
      ≡ (record { rest = rest; eof = is_empty rest; fail = false }, n)
unfolding read_unsigned
read_unsigned-to_string size n variable s rest blanks small e =
    let digits = to_string-All n in
    let some_digit = length-to_string n in
    rw
      (
        blanks,
        skip_spaces-digit (to_string n) rest digits some_digit,
        is_empty-append (to_string n) rest some_digit,
        read_signed-digits size (to_string n) rest digits some_digit,
      )
      (read_digits-append size (to_string n) rest digits some_digit e
          (rw (number-to_string n) small)
        ∙ ap (λ m. (record { rest = rest; eof = is_empty rest; fail = false }, m))
            (number-to_string n))

-- a token of at least one byte, none of them a blank
abbrev pub IsToken : Bytes → Type 0
IsToken t = All (λ c. is_space c ≡ false) t × (0 < length t)

span_token-append :
    (t rest : Bytes)
    → All (λ c. is_space c ≡ false) t
    → Ends rest
    → span_token (t ++ rest) ≡ (t, rest)
unfolding span_token
span_token-append [] [] h e = refl
span_token-append [] (c ∷ rest) h e = rw e refl
span_token-append (c ∷ t) rest (p, h) e = rw (p, span_token-append t rest h e) refl

skip_spaces-token : (t rest : Bytes) → IsToken t → skip_spaces (t ++ rest) ≡ t ++ rest
unfolding skip_spaces
skip_spaces-token [] rest (_, h) = absurd (omega arith)
skip_spaces-token (c ∷ t) rest ((p, _), _) = rw p refl

-- A token is read back, behind blanks or not.
pub read_string-token :
    (t variable s rest : Bytes)
    → skip_spaces s ≡ skip_spaces (t ++ rest)
    → IsToken t
    → Ends rest
    → read_string (open_stream s) variable
      ≡ (record { rest = rest; eof = is_empty rest; fail = false }, t)
unfolding read_string
read_string-token t variable s rest blanks h e =
    rw
      (
        blanks,
        skip_spaces-token t rest h,
        is_empty-append t rest h.1,
        span_token-append t rest h.0 e,
      )
      refl

-- no newline among the bytes
abbrev pub NoNewline : Bytes → Type 0
NoNewline = All (λ c. (c == b'\n') ≡ false)

pub NoNewline-digits : (ds : Bytes) → All IsDigit ds → NoNewline ds
NoNewline-digits [] d = tt
NoNewline-digits (c ∷ ds) (d, h) = (ground arith, NoNewline-digits ds h)

-- A line without a newline is the first of the lines, where one ends it.
pub lines-append :
    (line rest : Bytes) → NoNewline line → lines (line ++ b'\n' ∷ rest) ≡ line ∷ lines rest
unfolding lines
lines-append [] rest h = refl
lines-append (c ∷ line) rest (p, h) = rw (p, lines-append line rest h) refl
