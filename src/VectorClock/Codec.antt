-- ===== src/VectorClock/Codec.antt =====
-- What `decodeData` reads of the bytes that `toBytes` writes, and how many those are.
use localized_causal_broadca.Prelude.{
  ℕ, ◌<◌, ◌≡◌, refl, List, [], ◌∷◌, ◌++◌, arith, word_size, All, length, length-append,
  append_assoc, ok,
}
use localized_causal_broadca.Decimal.{Bytes, to_string}
use localized_causal_broadca.Decimal.RoundTrip.{IsDigit, to_string-All, stoul-to_string}
use localized_causal_broadca.CString.{c_string, copy_string, copy_string-c_string, NoNull}
use localized_causal_broadca.VectorClock.{
  VectorClock, IsValid, encode_values, to_bytes, values_length, get_bytes_length, decode_values,
  decode_data,
}

digits-NoNull : (s : Bytes) → All IsDigit s → NoNull s
digits-NoNull [] h = tt
digits-NoNull (c ∷ s) (d, h) = (omega arith, digits-NoNull s h)

-- A printed number is read back from a buffer, with the bytes behind it.
pub copy_string-to_string :
    (n : ℕ) (rest : Bytes) → copy_string (c_string (to_string n) ++ rest) ≡ ok (to_string n, rest)
copy_string-to_string n rest =
    copy_string-c_string (to_string n) rest (digits-NoNull (to_string n) (to_string-All n))

-- Each entry fits in a size_t.
abbrev pub Fits : List ℕ → Type 0
Fits = All (λ x. x < word_size)

decode-encode_values :
    (xs : List ℕ) (rest : Bytes)
    → Fits xs
    → decode_values (length xs) (encode_values xs ++ rest) ≡ ok xs
unfolding decode_values encode_values
decode-encode_values [] rest h = refl
decode-encode_values (x ∷ xs) rest (h, hs) =
    rw (append_assoc (c_string (to_string x)) (encode_values xs) rest)
      (rw copy_string-to_string (rw (stoul-to_string x h) (rw (decode-encode_values xs rest hs))))

-- For a clock with one size_t for each process `decodeData` gives back what `toBytes` wrote,
-- whatever bytes follow.
pub decode_data-to_bytes :
    (v : VectorClock) (rest : Bytes)
    → IsValid v
    → Fits v.values
    → decode_data (to_bytes v ++ rest) v.num_processes ≡ ok v
unfolding decode_data to_bytes
decode_data-to_bytes v rest valid fits = rw (← valid.sized, decode-encode_values v.values rest fits)

length-encode_values : (xs : List ℕ) → length (encode_values xs) ≡ values_length xs
unfolding encode_values values_length
length-encode_values [] = refl
length-encode_values (x ∷ xs) = omega (
  arith,
  length-append (c_string (to_string x)) (encode_values xs),
  length-append (to_string x) (0 ∷ []),
  length-encode_values xs,
)

-- `getBytesLength` is the number of bytes that `toBytes` writes.
pub length-to_bytes : (v : VectorClock) → length (to_bytes v) ≡ get_bytes_length v
unfolding to_bytes get_bytes_length
length-to_bytes v = length-encode_values v.values
