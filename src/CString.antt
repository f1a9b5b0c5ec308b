-- ===== src/CString.antt =====
-- NULL-terminated strings in a byte buffer: what std::strcpy and memcpy of size() + 1 bytes write,
-- and the loops that read up to a NULL (copyString in template_cpp/src/src/packet.cpp,
-- Message::decodeData, VectorClock::decodeData). A buffer is the list of the bytes from the cursor
-- on.
use localized_causal_broadca.Prelude.{
  ◌≡◌, ◌≢◌, refl, [], ◌∷◌, ◌++◌, arith, ◌==◌, if◌then◌else◌, All, Result, ok, err, overrun, ◌>>=◌,
}
use localized_causal_broadca.Decimal.{Bytes}

-- `s` with the NULL behind it
abbrev pub c_string : Bytes → Bytes
c_string s = s ++ 0 ∷ []

-- the bytes in front of the next NULL, and the buffer behind it
unfoldable pub copy_string : Bytes → Result (Bytes × Bytes)
copy_string [] = err overrun
copy_string (c ∷ data') =
    let rest = (copy_string data' >>= λ r. ok (c ∷ r.0, r.1)) in
    if c == 0 then ok ([], data') else rest

abbrev pub NoNull : Bytes → Type 0
NoNull = All (λ c. c ≢ 0)

pub copy_string-c_string :
    (s rest : Bytes) → NoNull s → copy_string (c_string s ++ rest) ≡ ok (s, rest)
unfolding copy_string
copy_string-c_string [] rest h = refl
copy_string-c_string (c ∷ s) rest (n, h) = ground (arith, copy_string-c_string s rest h)
