-- ===== src/BestEffortBroadcast.antt =====
-- template_cpp/src/include/best_effort_broadcast.hpp and
-- template_cpp/src/src/best_effort_broadcast.cpp: the thread that sends each packet to every host.
-- What it hands to PerfectLink::send is a list, in the order of the calls; `hosts` has the ids.
pub mod Rounds
pub mod Packets
use localized_causal_broadca.Prelude.{
  ℕ, Bool, true, false, List, [], ◌∷◌, ◌++◌, map, ltb, if◌then◌else◌, Option, none, some,
}
use localized_causal_broadca.Packet.{Packet}
use localized_causal_broadca.OutBox.{Addressed}
use localized_causal_broadca.Queue.{Queue, get_size, push, pop, empty}
use mathlib.Core.Option

pub record BestEffortBroadcast : Type 0 where
  pub packets_to_broadcast : Queue Packet
  pub packets_to_re_broadcast : Queue Packet
  pub hosts : List ℕ

unfoldable pub broadcast : BestEffortBroadcast → Packet → Option BestEffortBroadcast
broadcast b p =
    Option.map (λ q. record b { packets_to_broadcast = q }) (push b.packets_to_broadcast p)

unfoldable pub re_broadcast : BestEffortBroadcast → Packet → Option BestEffortBroadcast
re_broadcast b p =
    Option.map (λ q. record b { packets_to_re_broadcast = q }) (push b.packets_to_re_broadcast p)

-- `for (auto host : hosts) perfect_link -> send(…)`
unfoldable pub send_to_all : List ℕ → Packet → List Addressed
send_to_all [] p = []
send_to_all (host ∷ hosts) p = record { packet = p; dest_proc_id = host } ∷ send_to_all hosts p

-- what a pop gives, and `none` where it waits
popped :
    BestEffortBroadcast → Option (Packet × Queue Packet) → Option (List Addressed × Queue Packet)
popped b none = none
popped b (some (p, rest)) = some (send_to_all b.hosts p, rest)

-- a queue's half of the loop: nothing where the queue is empty
unfoldable pub drain : BestEffortBroadcast → Queue Packet → Option (List Addressed × Queue Packet)
unfolding popped
drain b q = if ltb 0 (get_size q) then popped b (pop q) else some ([], q)

-- Which of the queues the thread `broadcast` tests next: that of the packets to re-broadcast, or
-- that of the own ones.
pub data Turn : Type 0 where
  others_next own_next : Turn

-- One of the two halves of the thread's loop, to the calls of `send` that it makes: the test, and
-- the pop of a packet.
unfoldable pub broadcast_half :
    BestEffortBroadcast → Turn → Option (BestEffortBroadcast × Turn × List Addressed)
broadcast_half b others_next =
    Option.map (λ (sends, q). (record b { packets_to_re_broadcast = q }, own_next, sends))
      (drain b b.packets_to_re_broadcast)
broadcast_half b own_next =
    Option.map (λ (sends, q). (record b { packets_to_broadcast = q }, others_next, sends))
      (drain b b.packets_to_broadcast)
