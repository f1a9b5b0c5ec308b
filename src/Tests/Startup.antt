-- ===== src/Tests/Startup.antt =====
-- Tests and instances for the start of the program.
use localized_causal_broadca.Prelude.{
  ℕ, ◌+◌, ◌≡◌, refl, ◌↔◌, true, List, [], ◌∷◌, ◌++◌, ◌==◌, ◌*◌, ◌%◌, if◌then◌else◌, arith, length,
  All, Option, none, some, ok, ◌>>=◌,
}
use mathlib.Core.List.{Perm}
use localized_causal_broadca.Containers.Set.{NumSet, member}
use localized_causal_broadca.Decimal.{Bytes, number, to_string}
use localized_causal_broadca.CommandLine
use localized_causal_broadca.CommandLine.{Parser, parse, id_option, hosts_option, output_option}
use localized_causal_broadca.CommandLine.Accepts.{Accepted, parse-iff-Accepted}
use localized_causal_broadca.Hosts.{
  Resolver, Host, make_host, sort_hosts, insert_host, min_id, max_id, check_hosts, hosts,
}
use localized_causal_broadca.Hosts.Compact.{IsSorted, InRange, check_hosts-iff-InRange}
use localized_causal_broadca.Hosts.RoundTrip.{Entry, IsEntry, file_of, make_all, hosts-file_of}
use localized_causal_broadca.ProcessController.Config.{Unset, read_processes, read_config}
use localized_causal_broadca.ProcessController.Config.RoundTrip.{
  Row, config_text, affects, read_config-config_text,
}
use localized_causal_broadca.ProcessController.Config.Endless.{read_processes-endless}
use localized_causal_broadca.ProcessController.Startup.{Surroundings, Layers, main, ids}
use localized_causal_broadca.ProcessController.Startup.Main.{Says, main-Says}
use localized_causal_broadca.CausalBroadcast

-- PROGRAM --id 2 --hosts H --output O C
abbrev argv : List Bytes
argv =
    (b'p' ∷ [])
    ∷ id_option
    ∷ (b'2' ∷ [])
    ∷ hosts_option
    ∷ (b'H' ∷ [])
    ∷ output_option
    ∷ (b'O' ∷ [])
    ∷ (b'C' ∷ [])
    ∷ []

abbrev parser : Parser
parser = record {
  argv = argv;
  with_config = true;
  parsed = true;
  id_ = 2;
  hosts_path_ = b'H' ∷ [];
  output_path_ = b'O' ∷ [];
  config_path_ = b'C' ∷ [];
}

two : number 0 (b'2' ∷ []) ≡ 2
unfolding number
two = refl

argv-Accepted : Accepted argv parser
argv-Accepted = (
  omega arith,
  refl,
  (((omega arith, omega arith), tt), omega arith, two, omega arith),
  refl,
  refl,
  refl,
)

parse-iff-Accepted_example :
    (parse (CommandLine.create argv true 0) ≡ some parser) ↔ Accepted argv parser
parse-iff-Accepted_example = parse-iff-Accepted argv 0 parser

-- two hosts with the id 1, and none with the id 2
abbrev host : ℕ → Host
host i = record { id = i; ip = 127; port = 8080 }

check_hosts-iff-InRange_example :
    ((check_hosts (host 3 ∷ host 1 ∷ host 1 ∷ []) ≡ ok (host 1 ∷ host 1 ∷ host 3 ∷ [])) ↔ (
      InRange (host 3 ∷ host 1 ∷ host 1 ∷ [])
      × (host 1 ∷ host 1 ∷ host 3 ∷ [] ≡ sort_hosts (host 3 ∷ host 1 ∷ host 1 ∷ []))))
    × Perm (sort_hosts (host 3 ∷ host 1 ∷ host 1 ∷ [])) (host 3 ∷ host 1 ∷ host 1 ∷ [])
    × IsSorted (sort_hosts (host 3 ∷ host 1 ∷ host 1 ∷ []))
check_hosts-iff-InRange_example =
    check_hosts-iff-InRange (host 3 ∷ host 1 ∷ host 1 ∷ []) (host 1 ∷ host 1 ∷ host 3 ∷ [])

-- An id is passed over, and one is there twice.
not_compact : check_hosts (host 3 ∷ host 1 ∷ host 1 ∷ []) ≡ ok (host 1 ∷ host 1 ∷ host 3 ∷ [])
unfolding check_hosts sort_hosts min_id max_id insert_host
not_compact = refl

abbrev resolver : Resolver
resolver = record {
  inet_pton = λ s. true;
  inet_addr = λ s. length s;
  inet_ntop = λ n. [];
  getaddrinfo = λ s. none;
}

-- "2 h 80" and "1 hh 443"
abbrev entries : List Entry
entries =
    record { id = 2; address = b'h' ∷ []; port = 80 }
    ∷ record { id = 1; address = b'h' ∷ b'h' ∷ []; port = 443 }
    ∷ []

entries-IsEntry : All IsEntry entries
entries-IsEntry = (
  record { id_fits = omega arith; token = ((refl, tt), omega arith); port_fits = omega arith },
  (
    record {
      id_fits = omega arith;
      token = ((refl, (refl, tt)), omega arith);
      port_fits = omega arith;
    },
    tt,
  ),
)

hosts-file_of_example :
    hosts resolver (some (file_of entries)) ≡ (make_all resolver entries >>= check_hosts)
hosts-file_of_example = hosts-file_of resolver entries entries-IsEntry

-- "2 1 3" and "1": the processes 1 and 3 affect 2
abbrev rows : List Row
rows = record { process = 2; others = 1 ∷ 3 ∷ [] } ∷ record { process = 1; others = [] } ∷ []

abbrev unset : ℕ → Unset
unset i = record { cur_process = 2; other_process = 7 }

read_config-config_text_example :
    (locality : NumSet) × (read_config 3 2 unset 0 (some (config_text 10 rows))
      ≡ some (10, locality))
    × ((x : ℕ) → member x locality ≡ affects 2 rows x)
read_config-config_text_example =
    read_config-config_text 3 2 unset 0 10 rows (omega arith)
      (
        (omega arith, (omega arith, (omega arith, tt)), omega arith),
        ((omega arith, tt, omega arith), tt),
      )
      (omega arith)

read_processes-endless_example :
    read_processes 1000 2 unset 0 ((to_string 2 ++ (b' ' ∷ b'x' ∷ [])) ∷ []) [] ≡ none
read_processes-endless_example =
    read_processes-endless 1000 2 unset 0 b'x' [] [] [] [] (omega arith) (refl, refl, refl, refl)

-- the files H and C
abbrev file : Bytes → Option Bytes
file [] = none
file (c ∷ path) =
    if c == b'H'
    then some (file_of entries)
    else if c == b'C'
    then some (config_text 10 rows)
    else none

abbrev surroundings : Surroundings
surroundings = record {
  resolver = resolver;
  files = file;
  unset = unset;
  num_messages = 99;
  id = 99;
  outbox_size = 0;
}

abbrev resolved : List Host
resolved =
    record { id = 2; ip = 1; port = 80 * 256 }
    ∷ record { id = 1; ip = 2; port = 443 % 256 * 256 + 1 }
    ∷ []

files-Says : Says 3 surroundings argv parser resolved 10 rows
unfolding make_host
files-Says = record {
  accepted = argv-Accepted;
  entries = entries;
  are_entries = entries-IsEntry;
  hosts_file = refl;
  resolved = refl;
  in_range =
      (omega arith, (omega arith, (omega arith, tt)), (omega arith, (omega arith, tt)), refl, refl);
  config_file = refl;
  m_fits = omega arith;
  are_rows = (
    (omega arith, (omega arith, (omega arith, tt)), omega arith),
    ((omega arith, tt, omega arith), tt),
  );
  some_fuel = omega arith;
}

main-Says_example :
    (layers : Layers) × (locality : NumSet) × (main 3 surroundings argv ≡ some (ok (some layers)))
    × (layers.perfect_link ≡ record {
      process_id = 2;
      delivered = [];
      outbox = record { curr_size = 0; max_size = 1000; packets = [] };
    })
    × (layers.beb.hosts ≡ ids (sort_hosts resolved))
    × (layers.beb.packets_to_broadcast ≡ record { curr_size = 0; max_size = 512; items = [] })
    × (layers.beb.packets_to_re_broadcast ≡ record { curr_size = 0; max_size = 512; items = [] })
    × (layers.urb
        ≡ record { process_id = 2; delivered = []; pending = []; acks = []; num_processes = 2 })
    × (layers.causal_broadcast ≡ CausalBroadcast.create 2 10 (ids (sort_hosts resolved)) locality)
    × ((x : ℕ) → member x locality ≡ affects 2 rows x)
main-Says_example = main-Says 3 surroundings argv parser resolved 10 rows files-Says
