-- ===== src/ProcessController/Config/Endless.antt =====
-- Configurations at which `while (!iss.eof())` does not end.
use mathlib.Core.Option
use localized_causal_broadca.Prelude.{
  ℕ, zero, suc, ◌+◌, ◌<◌, ◌≡◌, refl, true, false, List, [], ◌∷◌, ◌++◌, ◌==◌, word_size, ==_refl,
  Option, none, some,
}
use localized_causal_broadca.Containers.Set.{NumSet, insert}
use localized_causal_broadca.Decimal.{Bytes, is_digit, is_space, skip_spaces, to_string}
use localized_causal_broadca.Stream.{
  open_stream, read_unsigned, read_signed, read_digits, digits_value, span_digits,
}
use localized_causal_broadca.Stream.Tokens.{read_unsigned-to_string}
use localized_causal_broadca.ProcessController.Config.{
  Unset, read_others, read_process, read_processes,
}

-- Behind a failed extraction nothing is read, so the end of the line is never seen.
read_others_failed :
    (fuel : ℕ) (text : Bytes) (other : ℕ) (s : NumSet)
    → read_others fuel (record { rest = text; eof = false; fail = true }) other s ≡ none
unfolding read_others read_unsigned
read_others_failed zero text other s = refl
read_others_failed (suc fuel) text other s = read_others_failed fuel text other (insert other s)

-- a byte that starts no number
abbrev pub StartsNoNumber : ℕ → Type 0
StartsNoNumber c =
    (is_digit c ≡ false) × (is_space c ≡ false) × ((c == b'-') ≡ false) × ((c == b'+') ≡ false)

read_unsigned-StartsNoNumber :
    (c : ℕ) (rest : Bytes) (other : ℕ)
    → StartsNoNumber c
    → read_unsigned word_size (open_stream (b' ' ∷ c ∷ rest)) other
      ≡ (record { rest = c ∷ rest; eof = false; fail = true }, 0)
unfolding read_unsigned skip_spaces read_signed read_digits digits_value span_digits
read_unsigned-StartsNoNumber c rest other (d, b, m, p) = rw (b, m, p, d) refl

read_others-StartsNoNumber :
    (fuel c : ℕ) (rest : Bytes) (other : ℕ) (s : NumSet)
    → StartsNoNumber c
    → read_others fuel (open_stream (b' ' ∷ c ∷ rest)) other s ≡ none
unfolding read_others
read_others-StartsNoNumber zero c rest other s h = refl
read_others-StartsNoNumber (suc fuel) c rest other s h =
    rw (read_unsigned-StartsNoNumber c rest other h)
      (read_others_failed fuel (c ∷ rest) 0 (insert 0 s))

read_process-StartsNoNumber :
    (fuel process_id : ℕ) (unset : Unset) (c : ℕ) (rest : Bytes) (s : NumSet)
    → process_id < word_size
    → StartsNoNumber c
    → read_process fuel process_id unset (to_string process_id ++ (b' ' ∷ c ∷ rest)) s ≡ none
unfolding read_process
read_process-StartsNoNumber fuel process_id unset c rest s small h =
    let text = to_string process_id ++ (b' ' ∷ c ∷ rest) in
    rw
      (
        read_unsigned-to_string word_size process_id unset.cur_process text (b' ' ∷ c ∷ rest) refl
            small refl,
        ==_refl process_id,
      )
      (read_others-StartsNoNumber fuel c rest unset.other_process s h)

bind-none {ℓ κ} :
    {A : Type ℓ} {B : Type κ} (o : Option A) (f : A → Option B)
    → ((a : A) → f a ≡ none)
    → Option.bind o f ≡ none
unfolding Option.bind
bind-none none f h = refl
bind-none (some a) f h = h a

-- A line that starts with this process's id, a blank and a byte that starts no number, such as a
-- letter or a comma: with no fuel does the reading end, whatever the lines before and after.
pub read_processes-endless :
    (fuel process_id : ℕ) (unset : ℕ → Unset) (i c : ℕ) (rest : Bytes) (before after : List Bytes)
    (s : NumSet)
    → process_id < word_size
    → StartsNoNumber c
    → read_processes fuel process_id unset i
        (before ++ (to_string process_id ++ (b' ' ∷ c ∷ rest)) ∷ after)
        s
      ≡ none
unfolding read_processes Option.bind
read_processes-endless fuel process_id unset i c rest [] after s small h =
    rw (read_process-StartsNoNumber fuel process_id (unset i) c rest s small h) refl
read_processes-endless fuel process_id unset i c rest (line ∷ before) after s small h =
    bind-none (read_process fuel process_id (unset i) line s) _
      (λ t. read_processes-endless fuel process_id unset (i + 1) c rest before after t small h)
