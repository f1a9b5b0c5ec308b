-- ===== src/ProcessController/Config.antt =====
-- template_cpp/src/src/process_controller.cpp: the constructor's reading of the configuration, the
-- number of messages and the processes that affect this one.
pub mod RoundTrip
pub mod Endless
use mathlib.Core.Option
use localized_causal_broadca.Prelude.{
  ℕ, zero, suc, ◌+◌, Bool, true, false, ◌||◌, List, [], ◌∷◌, ◌==◌, if◌then◌else◌, Option, none,
  some, word_size,
}
use localized_causal_broadca.Containers.Set.{NumSet, insert}
use localized_causal_broadca.Decimal.{Bytes}
use localized_causal_broadca.Stream.{Stream, open_stream, read_unsigned, lines}

-- What the memory of the two variables of a round holds before something is read into them.
pub record Unset : Type 0 where
  pub cur_process : ℕ
  pub other_process : ℕ

-- `while (!iss.eof())`; `none` where the fuel does not reach its end.
unfoldable pub read_others : ℕ → Stream → ℕ → NumSet → Option NumSet
read_others zero iss other_process locality = none
read_others (suc fuel) iss other_process locality =
    let (next, read) = read_unsigned word_size iss other_process in
    let rest = read_others fuel next read (insert read locality) in
    if iss.eof then some locality else rest

-- the body of `while (std::getline(config_file, line))`
unfoldable pub read_process : ℕ → ℕ → Unset → Bytes → NumSet → Option NumSet
read_process fuel process_id unset line locality =
    let (iss, cur_process) = read_unsigned word_size (open_stream line) unset.cur_process in
    if cur_process == process_id
    then read_others fuel iss unset.other_process locality
    else some locality

-- The loop itself. `unset i` is the memory in the i-th round.
unfoldable pub read_processes : ℕ → ℕ → (ℕ → Unset) → ℕ → List Bytes → NumSet → Option NumSet
unfolding Option.bind
read_processes fuel process_id unset i [] locality = some locality
read_processes fuel process_id unset i (line ∷ rest) locality =
    Option.bind (read_process fuel process_id (unset i) line locality)
      (read_processes fuel process_id unset (i + 1) rest)

-- std::getline reads nothing from a stream that is not good.
unfoldable pub lines_left : Stream → List Bytes
lines_left s = let rest = lines s.rest in if s.eof || s.fail then [] else rest

-- The stream of a file that cannot be opened has failbit set.
unfoldable pub open_config : Option Bytes → Stream
open_config none = record { rest = []; eof = false; fail = true }
open_config (some content) = open_stream content

-- The number of messages, which keeps what its memory held where none can be read, and the
-- locality.
unfoldable pub read_config : ℕ → ℕ → (ℕ → Unset) → ℕ → Option Bytes → Option (ℕ × NumSet)
read_config fuel process_id unset indeterminate file =
    let (config_file, num_messages) = read_unsigned word_size (open_config file) indeterminate in
    Option.map (λ locality. (num_messages, locality))
      (read_processes fuel process_id unset 0 (lines_left config_file) [])
