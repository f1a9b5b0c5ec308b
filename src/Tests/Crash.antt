-- ===== src/Tests/Crash.antt =====
-- Process 1 has handed over a thousand packets for process 2, which has crashed, and then one for
-- process 3.
use localized_causal_broadca.Prelude.{
  ℕ, zero, suc, ◌+◌, ◌<◌, ◌≡◌, refl, ap, ◌∙◌, subst, List, [], ◌∷◌, ◌++◌, arith, length, none, All,
  append-nil, append_assoc,
}
use localized_causal_broadca.Packet.{make}
use localized_causal_broadca.Queue.{push, pop, empty, default_max_size}
use localized_causal_broadca.OutBox
use localized_causal_broadca.OutBox.{Addressed, send_packets}
use localized_causal_broadca.OutBox.Size.{add_packet-room}
use localized_causal_broadca.PerfectLink
use localized_causal_broadca.PerfectLink.{add_packets_to_outbox}
use localized_causal_broadca.PerfectLink.Threads.{Node, node, send, fill_outbox}
use localized_causal_broadca.PerfectLink.Threads.Crash.{IsFor, Steps, begin, sends, fills}
use localized_causal_broadca.PerfectLink.Threads.Crash.Share.{count_for}
use localized_causal_broadca.PerfectLink.Threads.Crash.Starvation.{crash_starves}

-- packet number `k` of process 1, for a process
abbrev packet_to : ℕ → ℕ → Addressed
packet_to d k = record {
  packet = make 1 1 k 2 (record { num_processes = 3; values = k ∷ 0 ∷ 0 ∷ [] });
  dest_proc_id = d;
}

-- `n` packets for process 2, from number `k` on
abbrev packets_from : ℕ → ℕ → List Addressed
packets_from k zero = []
packets_from k (suc n) = packet_to 2 k ∷ packets_from (k + 1) n

length-packets_from : (k n : ℕ) → length (packets_from k n) ≡ n
length-packets_from k zero = refl
length-packets_from k (suc n) = ap suc (length-packets_from (k + 1) n)

count_for-packets_from : (k n : ℕ) → count_for 2 (packets_from k n) ≡ n
count_for-packets_from k zero = refl
count_for-packets_from k (suc n) = ground (arith, count_for-packets_from (k + 1) n)

-- The queue is empty, and the box counts `k` packets.
record Filled (k : ℕ) (n : Node) : Type 0 where
  waiting : n.packets_to_send ≡ empty default_max_size
  counted : n.link.outbox.curr_size ≡ k
  sized : n.link.outbox.max_size ≡ 1000

fill_one :
    {first n : Node} {sent : List Addressed} (k : ℕ) (a : Addressed)
    → k < 1000
    → Filled k n
    → Steps 2 first n sent
    → (m : Node) × Filled (k + 1) m × Steps 2 first m (sent ++ a ∷ [])
unfolding send fill_outbox add_packets_to_outbox push pop empty
fill_one {n = n} k a room h r =
    let (o, added, counted, sized) =
      add_packet-room n.link.outbox a (omega (arith, h.counted, h.sized, room))
        (omega (arith, h.sized)) in
    let v = record n {
      packets_to_send = record { curr_size = 1; max_size = 512; items = a ∷ [] };
    } in
    let w = record n {
      link = record n.link { outbox = o };
      packets_to_send = empty default_max_size;
    } in
    (
      w,
      record {
        waiting = refl;
        counted = counted ∙ ap (λ i. i + 1) h.counted;
        sized = sized ∙ h.sized;
      },
      fills {w = w} (sends {w = v} a r (rw h.waiting refl)) (rw added refl),
    )

fill_all :
    {first : Node} {sent : List Addressed} (handed : List Addressed) (k : ℕ) (n : Node)
    → k + length handed ≡ 1000
    → Filled k n
    → Steps 2 first n sent
    → (m : Node) × Filled 1000 m × Steps 2 first m (sent ++ handed)
fill_all {first} {sent} [] k n total h r =
    (n, subst (λ i. Filled i n) (omega (arith, total)) h, rw (append-nil sent) r)
fill_all {first} {sent} (a ∷ handed) k n total h r =
    let (m, filled, steps) = fill_one k a (omega (arith, total)) h r in
    let (end, done, all) = fill_all handed (k + 1) m (omega (arith, total)) filled steps in
    (end, done, subst (Steps 2 first end) (append_assoc sent (a ∷ []) handed) all)

node-Filled : Filled 0 (node 1 0)
unfolding node PerfectLink.start OutBox.create
node-Filled = record { waiting = refl; counted = refl; sized = refl }

-- the link when all thousand packets for process 2 are in its box
abbrev gathered : (m : Node) × Filled 1000 m × Steps 2 (node 1 0) m (packets_from 0 1000)
gathered =
    fill_all (packets_from 0 1000) 0 (node 1 0) (length-packets_from 0 1000) node-Filled begin

-- the same link with the packet for process 3 in its queue
abbrev with_one_more : Node
with_one_more = record gathered.0 {
  packets_to_send = record { curr_size = 1; max_size = 512; items = packet_to 3 1000 ∷ [] };
}

left_queue : count_for 2 gathered.0.packets_to_send.items + 1000 ≡ count_for 2 (packets_from 0 1000)
unfolding empty
left_queue = rw (gathered.1.waiting, count_for-packets_from 0 1000) refl

one_more : Steps 2 gathered.0 with_one_more (packet_to 3 1000 ∷ [])
unfolding send push empty
one_more = sends {w = with_one_more} (packet_to 3 1000) begin (rw gathered.1.waiting refl)

crash_starves_example :
    (fill_outbox with_one_more ≡ none)
    × (send_packets with_one_more.link.outbox ≡ send_packets gathered.0.link.outbox)
    × All (IsFor 2) (send_packets with_one_more.link.outbox)
    × (with_one_more.packets_to_send.items
        ≡ gathered.0.packets_to_send.items ++ packet_to 3 1000 ∷ [])
crash_starves_example = crash_starves 2 1 gathered.2 left_queue one_more
