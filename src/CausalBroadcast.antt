-- ===== src/CausalBroadcast.antt =====
-- template_cpp/src/include/causal_broadcast.hpp and template_cpp/src/src/causal_broadcast.cpp.
-- The mutex is held but in the waits of `broadcast_cv`, so what runs between two waits is one step.
-- Calls of the process controller and of the layer below are events, in the order of the calls.
pub mod Steps
pub mod Order
pub mod Invariant
pub mod Liveness
pub mod Dependencies
pub mod Histories
pub mod Causality
use localized_causal_broadca.Prelude.{
  ℕ, zero, suc, ◌+◌, ◌%◌, Bool, true, false, not, ◌&&◌, List, [], ◌∷◌, ◌++◌, ◌==◌, ltb,
  if◌then◌else◌, word_size, length, Option, none, some, Result, ok, err, ◌>>=◌,
}
use localized_causal_broadca.Containers.Set.{NumSet, member}
use localized_causal_broadca.Containers.Map.{NumMap, at, put, find, remove}
use localized_causal_broadca.Decimal.{to_string}
use localized_causal_broadca.VectorClock.{VectorClock, zeros, assign, increase, leq}
use localized_causal_broadca.Packet.{Message, Packet, make, can_add_message, add_message}

pub record CausalBroadcast : Type 0 where
  pub process_id : ℕ
  pub end_broadcast : Bool
  pub can_broadcast : Bool
  pub cur_seq_num : ℕ
  pub pending : NumMap (NumMap Packet)
  pub next : NumMap ℕ
  pub num_processes : ℕ
  pub locality : NumSet
  pub vc_send : VectorClock
  pub vc_recv : VectorClock
  pub num_messages : ℕ

-- `for (auto host : hosts) next[host.id] = 0`
first_next : List ℕ → NumMap ℕ → NumMap ℕ
first_next [] next = next
first_next (host ∷ hosts) next = first_next hosts (put host 0 next)

-- The constructor: this process's id, the number of its messages, the ids of the hosts, and the
-- processes that affect it.
unfoldable pub create : ℕ → ℕ → List ℕ → NumSet → CausalBroadcast
unfolding first_next
create process_id num_messages hosts locality = record {
  process_id = process_id;
  end_broadcast = false;
  can_broadcast = true;
  cur_seq_num = 0;
  pending = [];
  next = first_next hosts [];
  num_processes = length hosts;
  locality = locality;
  vc_send = zeros (length hosts);
  vc_recv = zeros (length hosts);
  num_messages = num_messages;
}

pub data Event : Type 0 where
  -- process_controller -> onPacketBroadcast, and urb -> broadcast
  logs_broadcast broadcasts : Packet → Event
  -- process_controller -> onPacketDelivered
  logs_delivered : Packet → Event

unfoldable pub get_send_vector_clock : CausalBroadcast → Result VectorClock
get_send_vector_clock c = assign c.vc_send c.process_id c.cur_seq_num

-- the delivery of the own packet lets the next one go
unfoldable pub causal_deliver : CausalBroadcast → Packet → CausalBroadcast × List Event
causal_deliver c p = (
  (if p.source_id == c.process_id && not c.end_broadcast
      then record c { can_broadcast = true }
      else c),
  logs_delivered p ∷ [],
)

-- pending[source_id], and next[source_id]
abbrev pub pending_of : CausalBroadcast → ℕ → NumMap Packet
pending_of c source_id = at [] source_id c.pending

abbrev pub next_of : CausalBroadcast → ℕ → ℕ
next_of c source_id = at 0 source_id c.next

unfoldable pub add_pending : CausalBroadcast → Packet → CausalBroadcast
add_pending c p = record c {
  pending = put p.source_id (put p.packet_seq_num p (pending_of c p.source_id)) c.pending;
}

-- `next[…] = next[…] + 1` and `pending[…].erase(…)`
unfoldable pub take_pending : CausalBroadcast → Packet → CausalBroadcast
take_pending c cur = record c {
  next = put cur.source_id ((next_of c cur.source_id + 1) % word_size) c.next;
  pending = put cur.source_id (remove cur.packet_seq_num (pending_of c cur.source_id)) c.pending;
}

-- the delivery counts for the clock that own packets carry only if its process affects this one
unfoldable pub count_sent : CausalBroadcast → ℕ → Result VectorClock
count_sent c source_id =
    if member source_id c.locality then increase c.vc_send source_id else ok c.vc_send

-- The body of the loop of `URBDeliver`, for a packet whose clock is not ahead.
unfoldable pub deliver_one : CausalBroadcast → ℕ → Packet → Result (CausalBroadcast × List Event)
deliver_one c source_id cur = do
  let d = take_pending c cur
  recv ← increase d.vc_recv source_id
  send ← count_sent d source_id
  ok (causal_deliver (record d { vc_recv = recv; vc_send = send }) cur)

-- One test of the loop: the pending packet that is the next of its source, if its clock is not
-- ahead of the deliveries.
unfoldable pub ready : CausalBroadcast → ℕ → Result (Option Packet)
ready c source_id = elim (find (next_of c source_id) (pending_of c source_id)) [
  | none ↦ ok none
  | some cur ↦ leq cur.vector_clock c.vc_recv >>= λ b. ok (if b then some cur else none)
]

-- The loop of `URBDeliver`. A round takes a packet out of pending[source_id], so one round more
-- than it holds is enough.
unfoldable pub deliver_ready : ℕ → CausalBroadcast → ℕ → Result (CausalBroadcast × List Event)
deliver_ready zero c source_id = ok (c, [])
deliver_ready (suc fuel) c source_id = ready c source_id >>= λ r. elim r [
  | none ↦ ok (c, [])
  | some cur ↦ deliver_one c source_id cur >>= λ d.
      deliver_ready fuel d.0 source_id >>= λ e. ok (e.0, d.1 ++ e.1)
]

-- `URBDeliver` behind its wait for `can_broadcast` to be false
unfoldable pub urb_deliver : CausalBroadcast → Packet → Result (CausalBroadcast × List Event)
urb_deliver c p =
    let d = add_pending c p in deliver_ready (length (pending_of d p.source_id) + 1) d p.source_id
