-- ===== src/BestEffortBroadcast/Rounds.antt =====
-- What the two halves of the broadcasting thread's loop do.
use localized_causal_broadca.Prelude.{
  ℕ, ◌≡◌, refl, ap, inl, inr, List, [], ◌∷◌, map, arith, some, All,
}
use localized_causal_broadca.Packet.{Packet}
use localized_causal_broadca.OutBox.{Addressed}
use localized_causal_broadca.Queue.{Queue, get_size}
use localized_causal_broadca.Queue.Fifo.{IsValid, pop-cases}
use localized_causal_broadca.BestEffortBroadcast.{
  BestEffortBroadcast, Turn, others_next, own_next, send_to_all, popped, drain, broadcast_half,
}

-- The packets `sent` are the oldest of `ps`, once for each host in the order of the hosts; none
-- where there is no packet.
abbrev pub OldestToAll : List ℕ → List Packet → List Addressed → Type 0
OldestToAll hosts [] sent = sent ≡ []
OldestToAll hosts (p ∷ ps) sent =
    (map (λ a. a.dest_proc_id) sent ≡ hosts) × All (λ a. a.packet ≡ p) sent

abbrev pub tail : List Packet → List Packet
tail [] = []
tail (p ∷ ps) = ps

-- the queue of a turn, and the turn that follows
abbrev pub queue_of : Turn → BestEffortBroadcast → Queue Packet
queue_of others_next b = b.packets_to_re_broadcast
queue_of own_next b = b.packets_to_broadcast

abbrev pub other : Turn → Turn
other others_next = own_next
other own_next = others_next

send_to_all-OldestToAll :
    (hosts : List ℕ) (p : Packet)
    → (map (λ a. a.dest_proc_id) (send_to_all hosts p) ≡ hosts)
      × All (λ a. a.packet ≡ p) (send_to_all hosts p)
unfolding send_to_all
send_to_all-OldestToAll [] p = (refl, tt)
send_to_all-OldestToAll (host ∷ hosts) p =
    let (dests, packets) = send_to_all-OldestToAll hosts p in
    (ap (λ ids. host ∷ ids) dests, (refl, packets))

drain_lem :
    (b : BestEffortBroadcast) (q : Queue Packet)
    → IsValid q
    → (sent : List Addressed) × (r : Queue Packet) × (drain b q ≡ some (sent, r))
      × OldestToAll b.hosts q.items sent
      × (r.items ≡ tail q.items)
      × IsValid r
unfolding drain popped get_size
drain_lem b q v = elim (pop-cases q v) [
  | inl (e, _) ↦ ([], q, ground (arith, v.counted), rw e refl, rw e refl, v)
  | inr (p, r, taken, items, valid, _) ↦ (
    send_to_all b.hosts p,
    r,
    ground (arith, v.counted),
    rw items (send_to_all-OldestToAll b.hosts p),
    rw items refl,
    valid,
  )
]

-- A half of the loop, for a queue whose counter and bound are right, does not wait at the pop. What
-- it then sends is the oldest packet of the queue, if there is one, once to every host in the order
-- of the hosts, and nothing else. It takes just this packet out of the queue, leaves the other
-- queue, and the other queue's half is next.
pub broadcast_half-sends :
    (b : BestEffortBroadcast) (turn : Turn)
    → IsValid (queue_of turn b)
    → (c : BestEffortBroadcast) × (sent : List Addressed) × (broadcast_half b turn
        ≡ some (c, other turn, sent))
      × OldestToAll b.hosts (queue_of turn b).items sent
      × ((queue_of turn c).items ≡ tail (queue_of turn b).items)
      × IsValid (queue_of turn c)
      × (queue_of (other turn) c ≡ queue_of (other turn) b)
      × (c.hosts ≡ b.hosts)
unfolding broadcast_half
broadcast_half-sends b others_next v =
    let (sent, r, drained, all, rest, valid) = drain_lem b b.packets_to_re_broadcast v in
    (record b { packets_to_re_broadcast = r }, sent, rw drained refl, all, rest, valid, refl, refl)
broadcast_half-sends b own_next v =
    let (sent, r, drained, all, rest, valid) = drain_lem b b.packets_to_broadcast v in
    (record b { packets_to_broadcast = r }, sent, rw drained refl, all, rest, valid, refl, refl)
