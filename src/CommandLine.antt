-- ===== src/CommandLine.antt =====
-- template_cpp/src/include/parser.hpp: the command line. Hosts.antt has the hosts file. A string is
-- the list of its bytes, and `argv` the list of the arguments, the program's name first; what is
-- read of `argv` is behind a test of `argc`, its length.
pub mod Accepts
use localized_causal_broadca.Prelude.{
  ℕ, zero, suc, Bool, true, false, not, ◌&&◌, List, [], ◌∷◌, ◌==◌, ltb, if◌then◌else◌, length,
  get_or, Option, none, some, Result, ok, err, runtime_error, ◌>>=◌, ◌>>◌, require,
}
use localized_causal_broadca.Decimal.{Bytes, is_digit, stoul}

pub record Parser : Type 0 where
  pub argv : List Bytes
  pub with_config : Bool
  pub parsed : Bool
  pub id_ : ℕ
  pub hosts_path_ : Bytes
  pub output_path_ : Bytes
  pub config_path_ : Bytes

-- The constructor. `id_` starts with what its memory held.
abbrev pub create : List Bytes → Bool → ℕ → Parser
create argv with_config indeterminate = record {
  argv = argv;
  with_config = with_config;
  parsed = false;
  id_ = indeterminate;
  hosts_path_ = [];
  output_path_ = [];
  config_path_ = [];
}

abbrev pub argc : Parser → ℕ
argc p = length p.argv

abbrev pub arg : Parser → ℕ → Bytes
arg p i = get_or p.argv i []

-- std::strcmp(a, b) == 0
unfoldable pub same_string : Bytes → Bytes → Bool
same_string [] [] = true
same_string [] (d ∷ b) = false
same_string (c ∷ a) [] = false
same_string (c ∷ a) (d ∷ b) = c == d && same_string a b

-- std::find_if for a byte that is no digit does not find one.
unfoldable pub all_digits : Bytes → Bool
all_digits [] = true
all_digits (c ∷ s) = is_digit c && all_digits s

unfoldable pub is_positive_number : Bytes → Bool
unfolding all_digits
is_positive_number [] = false
is_positive_number (c ∷ s) = all_digits (c ∷ s)

-- "--id", "--hosts" and "--output"
abbrev pub id_option : Bytes
id_option = b'-' ∷ b'-' ∷ b'i' ∷ b'd' ∷ []

abbrev pub hosts_option : Bytes
hosts_option = b'-' ∷ b'-' ∷ b'h' ∷ b'o' ∷ b's' ∷ b't' ∷ b's' ∷ []

abbrev pub output_option : Bytes
output_option = b'-' ∷ b'-' ∷ b'o' ∷ b'u' ∷ b't' ∷ b'p' ∷ b'u' ∷ b't' ∷ []

-- The handlers of std::invalid_argument and std::out_of_range return false.
caught : Parser → Result ℕ → Parser × Bool
caught p (ok n) = (record p { id_ = n }, true)
caught p (err e) = (p, false)

unfoldable pub parse_id : Parser → Parser × Bool
unfolding caught
parse_id p =
    if ltb (argc p) 3
    then (p, false)
    else if same_string (arg p 1) id_option
    then (if is_positive_number (arg p 2) then caught p (stoul (arg p 2)) else (p, false))
    else (p, false)

unfoldable pub parse_host_path : Parser → Parser × Bool
parse_host_path p =
    if ltb (argc p) 5
    then (p, false)
    else if same_string (arg p 3) hosts_option
    then (record p { hosts_path_ = arg p 4 }, true)
    else (p, false)

unfoldable pub parse_output_path : Parser → Parser × Bool
parse_output_path p =
    if ltb (argc p) 7
    then (p, false)
    else if same_string (arg p 5) output_option
    then (record p { output_path_ = arg p 6 }, true)
    else (p, false)

unfoldable pub parse_config_path : Parser → Parser × Bool
parse_config_path p =
    if not p.with_config
    then (p, true)
    else if ltb (argc p) 8
    then (p, false)
    else (record p { config_path_ = arg p 7 }, true)

-- `if (!…) return false;` before what follows
abbrev pub and_then : Parser × Bool → (Parser → Parser × Bool) → Parser × Bool
and_then (p, true) next = next p
and_then (p, false) next = (p, false)

unfoldable pub parse_internal : Parser → Parser × Bool
parse_internal p = and_then (parse_id p) (λ p.
    and_then (parse_host_path p) (λ p. and_then (parse_output_path p) (λ p. parse_config_path p)))

-- `none`: `help` ends the program.
unfoldable pub parse : Parser → Option Parser
parse p =
    let (q, done) = parse_internal p in if done then some (record q { parsed = true }) else none

-- The accessors throw std::runtime_error before `parse`.
unfoldable pub id : Parser → Result ℕ
id p = do require p.parsed runtime_error; ok p.id_

unfoldable pub hosts_path : Parser → Result Bytes
hosts_path p = do require p.parsed runtime_error; ok p.hosts_path_

unfoldable pub output_path : Parser → Result Bytes
output_path p = do require p.parsed runtime_error; ok p.output_path_

unfoldable pub config_path : Parser → Result Bytes
config_path p = do
  require p.parsed runtime_error
  require p.with_config runtime_error
  ok p.config_path_
