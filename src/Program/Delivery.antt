-- ===== src/Program/Delivery.antt =====
-- What the processes of a system deliver, with all of their layers and the network.
use localized_causal_broadca.Prelude.{ℕ, ◌<◌, ◌≡◌, arith, List, length, word_size}
use localized_causal_broadca.Containers.Set.{NumSet}
use localized_causal_broadca.VectorClock.Access.{IsProcess}
use localized_causal_broadca.Packet.{Packet}
use localized_causal_broadca.OutBox.{Addressed}
use localized_causal_broadca.CausalBroadcast.{Event, logs_delivered}
use localized_causal_broadca.CausalBroadcast.Order.{delivered_from}
use localized_causal_broadca.CausalBroadcast.Dependencies.{times_delivered}
use localized_causal_broadca.CausalBroadcast.Histories.{System, Genuine, OccursAfter, Precedes}
use localized_causal_broadca.CausalBroadcast.Causality.{
  delivery_facts, delivers_same, delivers_causally,
}
use localized_causal_broadca.Program.{Process, Run}
use localized_causal_broadca.Program.System.{start, Run-System}

-- a run of the system, with fewer than 2 ^ 64 hosts, and events at each
module _ (hosts : List ℕ) (num_messages : ℕ → ℕ) (locality : ℕ → NumSet) (indeterminate : ℕ → ℕ)
    {all : ℕ → Process} {history : ℕ → List Event} {arrived : ℕ → List Packet}
    {wire : List Addressed} (small : length hosts < word_size)
    (run : Run
      (length hosts)
      (start hosts num_messages locality indeterminate)
      all
      history
      arrived
      wire)
    (short : (i : ℕ) → IsProcess (length hosts) i → length (history i) < word_size) where
  sys : System hosts num_messages locality history
  sys = Run-System hosts num_messages locality indeterminate small run short

  -- In any run of a system of processes with all of their layers, on a network that loses, delays
  -- and repeats datagrams, where a size_t can count the hosts and the events of each process: a
  -- packet that a process delivers was broadcast by its source, with this number, clock and
  -- messages; its number is how many packets of this source the process has delivered before; and
  -- none of them has this number.
  pub Run-delivers :
      (i : ℕ) (before : List Event) (p : Packet)
      → IsProcess (length hosts) i
      → OccursAfter before (logs_delivered p) (history i)
      → Genuine history p
        × (p.packet_seq_num ≡ delivered_from p.source_id before)
        × (times_delivered p.source_id p.packet_seq_num before ≡ 0)
  Run-delivers i before p known at =
      let (_, earlier, genuine, number) = delivery_facts sys i before p known at in
      (genuine, number, ground (arith, earlier p.packet_seq_num))

  -- In any run of a system of processes with all of their layers, where a size_t can count the
  -- hosts and the events of each process: two processes that deliver a packet with one number of
  -- one source deliver the same packet, but for the process that it came from.
  pub Run-delivers_same :
      (i j : ℕ) (before before' : List Event) (p q : Packet)
      → IsProcess (length hosts) i
      → IsProcess (length hosts) j
      → OccursAfter before (logs_delivered p) (history i)
      → OccursAfter before' (logs_delivered q) (history j)
      → p.source_id ≡ q.source_id
      → p.packet_seq_num ≡ q.packet_seq_num
      → p ≡ record q { process_id = p.process_id }
  Run-delivers_same = delivers_same sys

  -- In any run of a system of processes with all of their layers, where a size_t can count the
  -- hosts and the events of each process: if the packet `k` of `s` precedes the packet `k'` of
  -- `s'`, by any chain of earlier broadcasts of one process and of deliveries from processes that
  -- affect one another, then every process that delivers the second has delivered the first before
  -- it, once.
  pub Run-delivers_causally :
      {s k s' k' : ℕ} (j : ℕ) (before : List Event) (q : Packet)
      → Precedes (length hosts) locality history s k s' k'
      → IsProcess (length hosts) j
      → OccursAfter before (logs_delivered q) (history j)
      → q.source_id ≡ s'
      → q.packet_seq_num ≡ k'
      → times_delivered s k before ≡ 1
  Run-delivers_causally = delivers_causally sys
