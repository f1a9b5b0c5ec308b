-- ===== src/ProcessController/Config/RoundTrip.antt =====
-- What is read of a configuration in the usual form: the number of messages, then a line for each
-- process with its id and those of the processes that affect it.
use mathlib.Core.Option
use localized_causal_broadca.Prelude.{
  ℕ, zero, suc, ◌+◌, ◌<◌, ◌≡◌, refl, ap, ◌∙◌, Bool, false, ◌&&◌, ◌||◌, List, [], ◌∷◌, ◌++◌, arith,
  ◌==◌, if◌then◌else◌, length, word_size, All, All-append, some,
}
use localized_causal_broadca.Containers.Set.{NumSet, member, insert, member-insert, member-nil}
use localized_causal_broadca.Decimal.{Bytes, skip_spaces, to_string}
use localized_causal_broadca.Decimal.RoundTrip.{to_string-All}
use localized_causal_broadca.Stream.{Stream, is_empty, read_unsigned, lines}
use localized_causal_broadca.Stream.Tokens.{
  Ends, NoNewline, NoNewline-digits, read_unsigned-to_string, lines-append,
}
use localized_causal_broadca.ProcessController.Config.{
  Unset, read_others, read_process, read_processes, lines_left, open_config, read_config,
}

-- a line: a process, and the others that affect it
pub record Row : Type 0 where
  pub process : ℕ
  pub others : List ℕ

-- The numbers fit in a size_t, and the fuel is more than the others of the line.
abbrev pub IsRow : ℕ → Row → Type 0
IsRow fuel r =
    (r.process < word_size) × All (λ o. o < word_size) r.others × (length r.others < fuel)

abbrev others_text : List ℕ → Bytes
others_text [] = []
others_text (o ∷ os) = b' ' ∷ (to_string o ++ others_text os)

abbrev row_text : Row → Bytes
row_text r = to_string r.process ++ others_text r.others

abbrev rows_text : List Row → Bytes
rows_text [] = []
rows_text (r ∷ rows) = row_text r ++ b'\n' ∷ rows_text rows

abbrev pub config_text : ℕ → List Row → Bytes
config_text m rows = to_string m ++ b'\n' ∷ rows_text rows

-- whether a line of the process names the other
abbrev pub affects : ℕ → List Row → ℕ → Bool
affects process_id [] other = false
affects process_id (r ∷ rows) other =
    (r.process == process_id && member other r.others) || affects process_id rows other

others_text-Ends : (os : List ℕ) → Ends (others_text os)
others_text-Ends [] = tt
others_text-Ends (o ∷ os) = refl

others_text-NoNewline : (os : List ℕ) → NoNewline (others_text os)
others_text-NoNewline [] = tt
others_text-NoNewline (o ∷ os) = (
  refl,
  All-append (λ c. (c == b'\n') ≡ false) (to_string o) (others_text os)
      (NoNewline-digits (to_string o) (to_string-All o)) (others_text-NoNewline os),
)

row_text-NoNewline : (r : Row) → NoNewline (row_text r)
row_text-NoNewline r =
    All-append (λ c. (c == b'\n') ≡ false) (to_string r.process) (others_text r.others)
      (NoNewline-digits (to_string r.process) (to_string-All r.process))
      (others_text-NoNewline r.others)

abbrev after : Bytes → Stream
after s = record { rest = s; eof = is_empty s; fail = false }

-- the set with all of the list inserted
insert_all : List ℕ → NumSet → NumSet
insert_all [] s = s
insert_all (o ∷ os) s = insert_all os (insert o s)

member-insert_all :
    (x : ℕ) (os : List ℕ) (s : NumSet) → member x (insert_all os s) ≡ (member x os || member x s)
unfolding insert_all member
member-insert_all x [] s = refl
member-insert_all x (o ∷ os) s =
    ground (arith, member-insert_all x os (insert o s), member-insert x o s)

read_others-others_text :
    (fuel : ℕ) (os : List ℕ) (unset : ℕ) (s : NumSet)
    → All (λ o. o < word_size) os
    → length os < fuel
    → read_others fuel (after (others_text os)) unset s ≡ some (insert_all os s)
unfolding read_others insert_all skip_spaces
read_others-others_text zero os unset s small enough = absurd (omega arith)
read_others-others_text (suc fuel) [] unset s small enough = refl
read_others-others_text (suc fuel) (o ∷ os) unset s (h, small) enough =
    rw
      (read_unsigned-to_string word_size o unset (others_text (o ∷ os)) (others_text os) refl h
        (others_text-Ends os))
      (read_others-others_text fuel os o (insert o s) small (omega arith))

-- what a line adds
taken : ℕ → Row → NumSet → NumSet
taken process_id r s = if r.process == process_id then insert_all r.others s else s

read_process-row_text :
    (fuel process_id : ℕ) (unset : Unset) (r : Row) (s : NumSet)
    → IsRow fuel r
    → read_process fuel process_id unset (row_text r) s ≡ some (taken process_id r s)
unfolding read_process taken
read_process-row_text fuel process_id unset r s (h, small, enough) =
    rw
      (
        read_unsigned-to_string word_size r.process unset.cur_process (row_text r)
            (others_text r.others) refl h (others_text-Ends r.others),
        read_others-others_text fuel r.others unset.other_process s small enough,
      )
      (ground arith)

-- What is left of the first line is empty.
read_process-nil :
    (fuel process_id : ℕ) (unset : Unset) (s : NumSet)
    → 0 < fuel
    → read_process fuel process_id unset [] s ≡ some s
unfolding read_process read_others read_unsigned skip_spaces
read_process-nil zero process_id unset s h = absurd (omega arith)
read_process-nil (suc fuel) process_id unset s h = ground arith

all_taken : ℕ → List Row → NumSet → NumSet
unfolding taken
all_taken process_id [] s = s
all_taken process_id (r ∷ rows) s = all_taken process_id rows (taken process_id r s)

read_processes-rows_text :
    (fuel process_id : ℕ) (unset : ℕ → Unset) (i : ℕ) (rows : List Row) (s : NumSet)
    → All (IsRow fuel) rows
    → read_processes fuel process_id unset i (lines (rows_text rows)) s
      ≡ some (all_taken process_id rows s)
unfolding read_processes all_taken lines
read_processes-rows_text fuel process_id unset i [] s h = refl
read_processes-rows_text fuel process_id unset i (r ∷ rows) s (h, hs) =
    rw
      (
        lines-append (row_text r) (rows_text rows) (row_text-NoNewline r),
        read_process-row_text fuel process_id (unset i) r s h,
      )
      (read_processes-rows_text fuel process_id unset (i + 1) rows (taken process_id r s) hs)

member-all_taken :
    (process_id : ℕ) (rows : List Row) (s : NumSet) (x : ℕ)
    → member x (all_taken process_id rows s) ≡ (affects process_id rows x || member x s)
unfolding all_taken taken
member-all_taken process_id [] s x = refl
member-all_taken process_id (r ∷ rows) s x = ground (
  arith,
  member-all_taken process_id rows (taken process_id r s) x,
  member-insert_all x r.others s,
)

-- A configuration with the number of messages m and a line `ID OTHERS…` for each process, of
-- numbers that fit in a size_t, whose lines have fewer others than the fuel: reading it ends, with
-- m, and with the locality of exactly the others that a line of this process names. What the memory
-- of the variables held before does not matter.
pub read_config-config_text :
    (fuel process_id : ℕ) (unset : ℕ → Unset) (indeterminate m : ℕ) (rows : List Row)
    → m < word_size
    → All (IsRow fuel) rows
    → 0 < fuel
    → (locality : NumSet) × (read_config fuel process_id unset indeterminate
          (some (config_text m rows))
        ≡ some (m, locality))
      × ((x : ℕ) → member x locality ≡ affects process_id rows x)
unfolding read_config open_config lines_left lines read_processes Option.bind
read_config-config_text fuel process_id unset indeterminate m rows small h enough = (
  all_taken process_id rows [],
  rw
      (read_unsigned-to_string word_size m indeterminate (config_text m rows)
        (b'\n' ∷ rows_text rows) refl small refl)
      (ap (Option.map (λ locality. (m, locality))) (
        ap (λ o. Option.bind o (read_processes fuel process_id unset 1 (lines (rows_text rows))))
          (read_process-nil fuel process_id (unset 0) [] enough)
        ∙ read_processes-rows_text fuel process_id unset 1 rows [] h)),
  λ x. rw (member-all_taken process_id rows [] x, member-nil x) (ground arith),
)
