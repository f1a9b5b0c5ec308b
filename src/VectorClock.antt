-- ===== src/VectorClock.antt =====
-- template_cpp/src/include/vector_clock.hpp. Process ids go from 1, indices from 0. The loops over
-- `i < num_processes` run along the lists of values, which hold num_processes entries.
pub mod Order
pub mod Codec
pub mod Access
use localized_causal_broadca.Prelude.{
  ℕ, zero, suc, ◌+◌, ◌-◌, ◌%◌, ◌≤◌, ◌≡◌, refl, Bool, true, false, ◌&&◌, List, [], ◌∷◌, ◌++◌, arith,
  ltb, leb, ◌==◌, if◌then◌else◌, word_size, length, set, get_or, get_elem?, replicate, Option, none,
  some, Result, ok, err, assert_failed, overrun, require, ◌>>=◌, ◌>>◌,
}
use localized_causal_broadca.Decimal.{Bytes, to_string, stoul}
use localized_causal_broadca.CString.{c_string, copy_string}

pub record VectorClock : Type 0 where
  pub num_processes : ℕ
  pub values : List ℕ

pub record IsValid (v : VectorClock) : Type 0 where
  pub sized : length v.values ≡ v.num_processes

unfoldable pub zeros : ℕ → VectorClock
zeros n = record { num_processes = n; values = replicate n 0 }

copy_values : ℕ → List ℕ → Result (List ℕ)
copy_values zero xs = ok []
copy_values (suc n) [] = err overrun
copy_values (suc n) (x ∷ xs) = do vs ← copy_values n xs; ok (x ∷ vs)

unfoldable pub of_values : ℕ → List ℕ → Result VectorClock
unfolding copy_values
of_values n xs = do vs ← copy_values n xs; ok (record { num_processes = n; values = vs })

-- `id_process - 1` in a size_t
abbrev pub index : ℕ → ℕ
index id_process = (id_process + (word_size - 1)) % word_size

unfoldable pub assign : VectorClock → ℕ → ℕ → Result VectorClock
assign v id_process val = do
  require (ltb (index id_process) v.num_processes) assert_failed
  ok (record v { values = set v.values (index id_process) val })

unfoldable pub increase : VectorClock → ℕ → Result VectorClock
increase v id_process = do
  require (ltb (index id_process) v.num_processes) assert_failed
  ok (record v {
    values =
        set v.values (index id_process) ((get_or v.values (index id_process) 0 + 1) % word_size);
  })

at_index : Option ℕ → Result ℕ
at_index none = err overrun
at_index (some n) = ok n

-- The assertion is about the id, and the access is at the id too.
unfoldable pub get_value : VectorClock → ℕ → Result ℕ
unfolding at_index
get_value v id_process = do
  require (leb 1 id_process && leb id_process v.num_processes) assert_failed
  at_index (get_elem? v.values id_process)

less_values : Bool → List ℕ → List ℕ → Bool
less_values strictly_lower (x ∷ xs) (y ∷ ys) =
    let rest = less_values (if ltb x y then true else strictly_lower) xs ys in
    if ltb y x then false else rest
less_values strictly_lower _ _ = strictly_lower

leq_values : List ℕ → List ℕ → Bool
leq_values (x ∷ xs) (y ∷ ys) = let rest = leq_values xs ys in if ltb y x then false else rest
leq_values _ _ = true

unfoldable pub less : VectorClock → VectorClock → Result Bool
unfolding less_values
less v w = do
  require (v.num_processes == w.num_processes) assert_failed
  ok (less_values false v.values w.values)

unfoldable pub leq : VectorClock → VectorClock → Result Bool
unfolding leq_values
leq v w = do
  require (v.num_processes == w.num_processes) assert_failed
  ok (leq_values v.values w.values)

encode_values : List ℕ → Bytes
encode_values [] = []
encode_values (x ∷ xs) = c_string (to_string x) ++ encode_values xs

unfoldable pub to_bytes : VectorClock → Bytes
unfolding encode_values
to_bytes v = encode_values v.values

values_length : List ℕ → ℕ
values_length [] = 0
values_length (x ∷ xs) = length (to_string x) + 1 + values_length xs

unfoldable pub get_bytes_length : VectorClock → ℕ
unfolding values_length
get_bytes_length v = values_length v.values

decode_values : ℕ → Bytes → Result (List ℕ)
decode_values zero bytes = ok []
decode_values (suc n) bytes = do
  r ← copy_string bytes
  x ← stoul r.0
  xs ← decode_values n r.1
  ok (x ∷ xs)

unfoldable pub decode_data : Bytes → ℕ → Result VectorClock
unfolding decode_values
decode_data bytes n = do xs ← decode_values n bytes; ok (record { num_processes = n; values = xs })
