-- ===== src/ProcessController/Startup.antt =====
-- template_cpp/src/include/process_controller.hpp, template_cpp/src/src/process_controller.cpp and
-- template_cpp/src/src/main.cpp: from the arguments to the layers as `start` makes them. What runs
-- is the threads of the layers; here are the states that they start from.
pub mod Main
use mathlib.Core.Option
use localized_causal_broadca.Prelude.{
  ℕ, suc, ◌^◌, true, List, [], ◌∷◌, length, map, Option, none, some, Result, ok, err, ◌>>=◌,
}
use localized_causal_broadca.Containers.Set.{NumSet}
use localized_causal_broadca.Containers.Map.{NumMap, put}
use localized_causal_broadca.Decimal.{Bytes}
use localized_causal_broadca.Queue
use localized_causal_broadca.Queue.{default_max_size}
use localized_causal_broadca.CommandLine
use localized_causal_broadca.CommandLine.{Parser, parse, hosts_path, output_path, config_path}
use localized_causal_broadca.Hosts.{Resolver, Host, hosts}
use localized_causal_broadca.ProcessController.Config.{Unset, read_config}
use localized_causal_broadca.PerfectLink
use localized_causal_broadca.PerfectLink.{PerfectLink}
use localized_causal_broadca.BestEffortBroadcast.{BestEffortBroadcast}
use localized_causal_broadca.UniformReliableBroadcast
use localized_causal_broadca.UniformReliableBroadcast.{Urb}
use localized_causal_broadca.CausalBroadcast
use localized_causal_broadca.CausalBroadcast.{CausalBroadcast}

-- What the program starts in: the resolver of host names; the files by their paths, `none` where
-- none can be opened; and what the memory of the variables holds that nothing initializes.
pub record Surroundings : Type 0 where
  pub resolver : Resolver
  pub files : Bytes → Option Bytes
  pub unset : ℕ → Unset
  pub num_messages : ℕ
  pub id : ℕ
  pub outbox_size : ℕ

-- sockaddr_in, the port in the network's byte order
pub record SocketAddress : Type 0 where
  pub ip : ℕ
  pub port : ℕ

pub record Controller : Type 0 where
  pub hosts : List Host
  pub host_addresses : NumMap SocketAddress
  pub num_messages : ℕ
  pub locality : NumSet
  pub process_id : ℕ

-- `for (Parser::Host host : parser.hosts())`
unfoldable pub addresses_from : List Host → NumMap SocketAddress → NumMap SocketAddress
addresses_from [] host_addresses = host_addresses
addresses_from (h ∷ hs) host_addresses =
    addresses_from hs (put h.id (record { ip = h.ip; port = h.port }) host_addresses)

-- parser.hosts()
unfoldable pub hosts_of : Surroundings → Parser → Result (List Host)
hosts_of env parser = do path ← hosts_path parser; hosts env.resolver (env.files path)

controller_of : ℕ → List Host → Option (ℕ × NumSet) → Option Controller
controller_of process_id found read =
    Option.map
      (λ (num_messages, locality). record {
        hosts = found;
        host_addresses = addresses_from found [];
        num_messages = num_messages;
        locality = locality;
        process_id = process_id;
      })
      read

-- The constructor. `none`: with this fuel the reading of the configuration does not end.
unfoldable pub create : ℕ → Surroundings → ℕ → Parser → Result (Option Controller)
unfolding controller_of
create fuel env process_id parser = do
  found ← hosts_of env parser
  path ← config_path parser
  output ← output_path parser
  ok (
      controller_of process_id found
        (read_config fuel process_id env.unset env.num_messages (env.files path)))

-- the layers, from below
pub record Layers : Type 0 where
  pub perfect_link : PerfectLink
  pub beb : BestEffortBroadcast
  pub urb : Urb
  pub causal_broadcast : CausalBroadcast

abbrev pub ids : List Host → List ℕ
ids hs = map (λ h. h.id) hs

-- `start`, to where the threads of the layers start
unfoldable pub start : Surroundings → Controller → Layers
start env c = record {
  perfect_link = PerfectLink.start c.process_id env.outbox_size;
  beb = record {
    packets_to_broadcast = Queue.empty default_max_size;
    packets_to_re_broadcast = Queue.empty default_max_size;
    hosts = ids c.hosts;
  };
  urb = UniformReliableBroadcast.start c.process_id (length c.hosts);
  causal_broadcast = CausalBroadcast.create c.process_id c.num_messages (ids c.hosts) c.locality;
}

-- `main`. `none`: it ends with a help text; an error is an exception that ends it.
unfoldable pub main : ℕ → Surroundings → List Bytes → Option (Result (Option Layers))
main fuel env argv =
    Option.map
      (λ parser. do
        printed_id ← CommandLine.id parser
        printed_hosts ← hosts_of env parser
        printed_output ← output_path parser
        printed_config ← config_path parser
        process_id ← CommandLine.id parser
        controller ← create fuel env process_id parser
        ok (Option.map (start env) controller))
      (parse (CommandLine.create argv true env.id))
