-- ===== src/ProcessController/Startup/Main.antt =====
-- What the layers start from, in terms of the arguments and of the two files.
use localized_causal_broadca.Prelude.{
  ℕ, ◌<◌, ◌≡◌, refl, ap, true, List, [], length, word_size, All, some, ok,
}
use localized_causal_broadca.Containers.Set.{NumSet, member}
use localized_causal_broadca.Decimal.{Bytes}
use localized_causal_broadca.Hosts.{Host, sort_hosts}
use localized_causal_broadca.Hosts.Compact.{InRange, length-sort_hosts, check_hosts-iff-InRange}
use localized_causal_broadca.Hosts.RoundTrip.{Entry, IsEntry, file_of, make_all, hosts-file_of}
use localized_causal_broadca.CommandLine.{Parser, id, hosts_path, output_path, config_path}
use localized_causal_broadca.CommandLine.Accepts.{Accepted, parse-iff-Accepted}
use localized_causal_broadca.ProcessController.Config.RoundTrip.{
  Row, IsRow, config_text, affects, read_config-config_text,
}
use localized_causal_broadca.ProcessController.Startup.{
  Surroundings, Controller, Layers, hosts_of, addresses_from, create, start, main, ids,
}
use localized_causal_broadca.PerfectLink
use localized_causal_broadca.OutBox
use localized_causal_broadca.Queue
use localized_causal_broadca.UniformReliableBroadcast
use localized_causal_broadca.CausalBroadcast

abbrev pub controller : ℕ → List Host → ℕ → NumSet → Controller
controller process_id found m locality = record {
  hosts = found;
  host_addresses = addresses_from found [];
  num_messages = m;
  locality = locality;
  process_id = process_id;
}

-- What the arguments and the files say: the hosts `hs` with their addresses, the number of messages
-- `m`, and the rows of the configuration.
pub record Says (fuel : ℕ) (env : Surroundings) (argv : List Bytes) (p : Parser) (hs : List Host)
    (m : ℕ) (rows : List Row) : Type 0 where
  pub accepted : Accepted argv p
  pub entries : List Entry
  pub are_entries : All IsEntry entries
  pub hosts_file : env.files p.hosts_path_ ≡ some (file_of entries)
  pub resolved : make_all env.resolver entries ≡ ok hs
  pub in_range : InRange hs
  pub config_file : env.files p.config_path_ ≡ some (config_text m rows)
  pub m_fits : m < word_size
  pub are_rows : All (IsRow fuel) rows
  pub some_fuel : 0 < fuel

module _ (fuel : ℕ) (env : Surroundings) (argv : List Bytes) (p : Parser) (hs : List Host) (m : ℕ)
    (rows : List Row) (says : Says fuel env argv p hs m rows) where
  parsed : p.parsed ≡ true
  parsed = ap (λ (q : Parser). q.parsed) says.accepted.5

  with_config : p.with_config ≡ true
  with_config = ap (λ (q : Parser). q.with_config) says.accepted.5

  hosts_of-sorted : hosts_of env p ≡ ok (sort_hosts hs)
  unfolding hosts_of hosts_path
  hosts_of-sorted =
      rw
        (
          parsed,
          says.hosts_file,
          hosts-file_of env.resolver says.entries says.are_entries,
          says.resolved,
        )
        ((check_hosts-iff-InRange hs (sort_hosts hs)).0.1 (says.in_range, refl))

  -- The program, started with arguments that are accepted, a hosts file with a line `ID ADDRESS
  -- PORT` for each host that resolves to the hosts `hs`, whose ids are in range, and a
  -- configuration with the number m and the rows `ID OTHERS…`, all of numbers that fit, with more
  -- fuel than the others of a row: no exception and no help text ends it, and the layers start as
  -- follows: the link, the uniform reliable broadcast and the causal broadcast with the id that was
  -- given; the link with nothing delivered and an empty outbox for a thousand packets, whose
  -- counter has what its memory held; the best effort broadcast with empty queues and the sorted
  -- ids; the uniform reliable broadcast with the number of hosts, and nothing pending, delivered or
  -- acknowledged; and the causal broadcast with m messages, the sorted ids, and the locality that
  -- this process's rows name.
  pub main-Says :
      (layers : Layers) × (locality : NumSet) × (main fuel env argv ≡ some (ok (some layers)))
      × (layers.perfect_link ≡ record {
        process_id = p.id_;
        delivered = [];
        outbox = record { curr_size = env.outbox_size; max_size = 1000; packets = [] };
      })
      × (layers.beb.hosts ≡ ids (sort_hosts hs))
      × (layers.beb.packets_to_broadcast ≡ record { curr_size = 0; max_size = 512; items = [] })
      × (layers.beb.packets_to_re_broadcast ≡ record { curr_size = 0; max_size = 512; items = [] })
      × (layers.urb ≡ record {
        process_id = p.id_;
        delivered = [];
        pending = [];
        acks = [];
        num_processes = length hs;
      })
      × (layers.causal_broadcast ≡ CausalBroadcast.create p.id_ m (ids (sort_hosts hs)) locality)
      × ((x : ℕ) → member x locality ≡ affects p.id_ rows x)
  unfolding main create start id output_path config_path PerfectLink.start OutBox.create Queue.empty
      UniformReliableBroadcast.start
  main-Says =
      let (locality, read, named) =
        read_config-config_text fuel p.id_ env.unset env.num_messages m rows says.m_fits
          says.are_rows says.some_fuel in
      let taken = (parse-iff-Accepted argv env.id p).1 says.accepted in
      (
        start env (controller p.id_ (sort_hosts hs) m locality),
        locality,
        rw (taken, hosts_of-sorted, parsed, with_config, says.config_file, read) refl,
        refl,
        refl,
        refl,
        refl,
        rw (length-sort_hosts hs) refl,
        refl,
        named,
      )
