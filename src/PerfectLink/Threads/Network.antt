-- ===== src/PerfectLink/Threads/Network.antt =====
-- A system of links on a network that loses, delays and repeats datagrams.
use mathlib.Core.List.{Memᴰ}
use localized_causal_broadca.Prelude.{
  ℕ, ◌≡◌, refl, sym, true, false, List, [], ◌∷◌, ◌++◌, arith, ◌==◌, All, All-Memᴰ, All-append,
  All-map, Bool-cases, inl, inr, subst, some, ==_refl,
}
use localized_causal_broadca.Packet.{Packet}
use localized_causal_broadca.OutBox.{Addressed}
use localized_causal_broadca.OutBox.Contents.{send_packets-All}
use localized_causal_broadca.PerfectLink.{ack_of}
use localized_causal_broadca.PerfectLink.Threads.{
  acking, delivering, Node, node, at_node, Run, begin, sends, fills, transmits, transmits_ack,
  arrives, pops, acknowledges, delivers, push_ack_of, deliver_new, to_process,
}
use localized_causal_broadca.PerfectLink.Threads.Rounds.{
  handled, Later, IsNode, IsNode-map, node-IsNode, Kept, send-Kept, listen-Kept, send_acks-Kept,
  fill_outbox-Kept, pop_received-Kept, push_ack_of-Kept, push_ack_of-delivering, deliver_new-Kept,
}

-- What is not an acknowledgement was handed to `send`; what is one acknowledges a packet that its
-- process has handled.
abbrev Genuine : (ℕ → Node) → List Addressed → Addressed → Type 0
Genuine nodes sent a =
    (a.packet.is_ack ≡ false → Memᴰ a sent)
    × (a.packet.is_ack ≡ true
        → handled a.dest_proc_id a.packet.source_id a.packet.packet_seq_num
            (nodes a.packet.process_id)
          ≡ true)

abbrev WasSent : List Addressed → Addressed → Type 0
WasSent sent a = Memᴰ a sent

record Sound (nodes : ℕ → Node) (sent wire delivered : List Addressed) : Type 0 where
  each : (i : ℕ) → IsNode (Genuine nodes sent) (WasSent sent) i (nodes i)
  wired : All (Genuine nodes sent) wire
  only_sent : All (WasSent sent) delivered

at_node_self : (i : ℕ) (w : Node) (nodes : ℕ → Node) → at_node i w nodes i ≡ w
unfolding at_node
at_node_self i w nodes = rw (==_refl i) refl

-- what all nodes have, where the changed one has it
at_node-all :
    (P : ℕ → Node → Type 0) (i : ℕ) (w : Node) (nodes : ℕ → Node)
    → P i w
    → ((j : ℕ) → P j (nodes j))
    → (j : ℕ) → P j (at_node i w nodes j)
unfolding at_node
at_node-all P i w nodes p h j = elim (Bool-cases (j == i)) [
  | inl same ↦ rw same (subst (λ k. P k w) (ground arith) p)
  | inr other ↦ rw other (h j)
]

handled-at_node :
    (i : ℕ) (w : Node) (nodes : ℕ → Node) (j p s n : ℕ)
    → Later (nodes i) w
    → handled p s n (nodes j) ≡ true
    → handled p s n (at_node i w nodes j) ≡ true
unfolding at_node
handled-at_node i w nodes j p s n later h = elim (Bool-cases (j == i)) [
  | inl same ↦ rw same (later p s n (subst (λ k. handled p s n (nodes k) ≡ true) (ground arith) h))
  | inr other ↦ rw other h
]

Genuine-at_node :
    (i : ℕ) (w : Node) (nodes : ℕ → Node) (sent : List Addressed)
    → Later (nodes i) w
    → (a : Addressed) → Genuine nodes sent a
    → Genuine (at_node i w nodes) sent a
Genuine-at_node i w nodes sent later a (message, ack) = (
  message,
  λ h.
      handled-at_node i w nodes a.packet.process_id a.dest_proc_id a.packet.source_id
        a.packet.packet_seq_num later (ack h),
)

Genuine-sent :
    (nodes : ℕ → Node) (sent : List Addressed) (b a : Addressed)
    → Genuine nodes sent a
    → Genuine nodes (b ∷ sent) a
Genuine-sent nodes sent b a (message, ack) = (λ h. Memᴰ.tail (message h), ack)

delivering-handled :
    (w : Node) (p : Packet)
    → w.processor ≡ delivering p
    → handled p.process_id p.source_id p.packet_seq_num w ≡ true
delivering-handled w p e = rw e (ground arith)

-- A step that changes one node, and hands nothing over: what it keeps is sound.
module _ {nodes : ℕ → Node} {sent wire delivered : List Addressed} (i : ℕ) (w : Node)
    (sound : Sound nodes sent wire delivered) where
  changed :
      Later (nodes i) w
      → IsNode (Genuine (at_node i w nodes) sent) (WasSent sent) i w
      → Sound (at_node i w nodes) sent wire delivered
  changed later h = record {
    each = at_node-all (IsNode (Genuine (at_node i w nodes) sent) (WasSent sent)) i w nodes h (λ j.
        IsNode-map (Genuine nodes sent) (WasSent sent) (Genuine (at_node i w nodes) sent)
          (WasSent sent) j (Genuine-at_node i w nodes sent later) (λ a m. m) (nodes j)
          (sound.each j));
    wired = All-map (Genuine-at_node i w nodes sent later) wire sound.wired;
    only_sent = sound.only_sent;
  }

  kept :
      Kept (Genuine nodes sent) (WasSent sent) i (nodes i) w
      → Sound (at_node i w nodes) sent wire delivered
  kept (h, later) = changed later (
      IsNode-map (Genuine nodes sent) (WasSent sent) (Genuine (at_node i w nodes) sent)
        (WasSent sent) i (Genuine-at_node i w nodes sent later) (λ a m. m) w h)

  acknowledged :
      (p : Packet)
      → (nodes i).processor ≡ acking p
      → push_ack_of (nodes i) p ≡ some w
      → Sound (at_node i w nodes) sent wire delivered
  acknowledged p at_ack e =
      let v = nodes i in
      let old = sound.each i in
      let trivial =
        IsNode-map (Genuine nodes sent) (WasSent sent) (λ a. Unit {0}) (λ a. Unit {0}) i (λ a k. tt)
          (λ a k. tt) v old in
      let later =
        (push_ack_of-Kept (λ a. Unit {0}) (λ a. Unit {0}) i v w p trivial at_ack tt e).1 in
      let now =
        IsNode-map (Genuine nodes sent) (WasSent sent) (Genuine (at_node i w nodes) sent)
          (WasSent sent) i (Genuine-at_node i w nodes sent later) (λ a m. m) v old in
      let ack : Genuine (at_node i w nodes) sent (ack_of v.link p) = (
        λ h. cc,
        λ h.
            subst
              (λ j. handled p.process_id p.source_id p.packet_seq_num (at_node i w nodes j) ≡ true)
              (sym old.id)
              (subst (λ u. handled p.process_id p.source_id p.packet_seq_num u ≡ true)
                (sym (at_node_self i w nodes))
                (delivering-handled w p
                  (push_ack_of-delivering (λ a. Unit {0}) (λ a. Unit {0}) i v w p e))),
      ) in
      changed later
        (push_ack_of-Kept (Genuine (at_node i w nodes) sent) (WasSent sent) i v w p now at_ack ack
          e).0

-- one packet more was handed over
handed :
    {nodes : ℕ → Node} {sent wire delivered : List Addressed} (a : Addressed)
    → Sound nodes sent wire delivered
    → Sound nodes (a ∷ sent) wire delivered
handed {nodes} {sent} {wire} {delivered} a sound = record {
  each = λ i.
      IsNode-map (Genuine nodes sent) (WasSent sent) (Genuine nodes (a ∷ sent)) (WasSent (a ∷ sent))
        i (Genuine-sent nodes sent a) (λ b m. Memᴰ.tail m) (nodes i) (sound.each i);
  wired = All-map (Genuine-sent nodes sent a) wire sound.wired;
  only_sent = All-map (λ b m. Memᴰ.tail m) delivered sound.only_sent;
}

transmitted :
    {nodes : ℕ → Node} {sent wire delivered : List Addressed} (more : List Addressed)
    → All (Genuine nodes sent) more
    → Sound nodes sent wire delivered
    → Sound nodes sent (more ++ wire) delivered
transmitted {nodes} {sent} {wire} more h sound = record {
  each = sound.each;
  wired = All-append (Genuine nodes sent) more wire h sound.wired;
  only_sent = sound.only_sent;
}

Run-Sound :
    (indeterminate : ℕ → ℕ) {nodes : ℕ → Node} {sent wire delivered : List Addressed}
    → Run (λ i. node i (indeterminate i)) nodes sent wire delivered
    → Sound nodes sent wire delivered
Run-Sound f begin = record { each = λ i. node-IsNode _ _ i (f i); wired = tt; only_sent = tt }
Run-Sound f (sends {nodes = nodes} {n = w} i a r message e) =
    let sound = handed a (Run-Sound f r) in
    kept i w sound (send-Kept _ _ i (nodes i) w a (sound.each i) ((λ h. Memᴰ.head refl), λ h. cc) e)
Run-Sound f (fills {nodes = nodes} {n = w} i r e) =
    let sound = Run-Sound f r in
    kept i w sound (fill_outbox-Kept _ _ i (nodes i) w (sound.each i) e)
Run-Sound f (transmits {nodes = nodes} i r) =
    let sound = Run-Sound f r in
    transmitted _ (send_packets-All _ (nodes i).link.outbox (sound.each i).boxed) sound
Run-Sound f (transmits_ack {nodes = nodes} {n = w} {a = a} i r e) =
    let sound = Run-Sound f r in
    let (known, keeps) = send_acks-Kept _ _ i (nodes i) w a (sound.each i) e in
    transmitted (a ∷ []) (Genuine-at_node i w nodes _ keeps.1 a known, tt) (kept i w sound keeps)
Run-Sound f (arrives {nodes = nodes} {n = w} a r m e) =
    let sound = Run-Sound f r in
    kept a.dest_proc_id w sound (
      listen-Kept _ _ a.dest_proc_id (nodes a.dest_proc_id) w a.packet (sound.each a.dest_proc_id)
        (All-Memᴰ _ m sound.wired) e)
Run-Sound f (pops {nodes = nodes} {n = w} i r at_pop e) =
    let sound = Run-Sound f r in
    kept i w sound
      (pop_received-Kept _ _ i (λ p message k. k.0 message) (nodes i) w (sound.each i) at_pop e)
Run-Sound f (acknowledges {nodes = nodes} {n = w} {p = p} i r at_ack e) =
    acknowledged i w (Run-Sound f r) p at_ack e
Run-Sound f (delivers {nodes = nodes} {delivered = delivered} {p = p} i r at_delivery) =
    let sound = Run-Sound f r in
    let (keeps, taken) = deliver_new-Kept _ _ i (nodes i) p (sound.each i) at_delivery in
    let changed_one = kept i (deliver_new (nodes i) p).0 sound keeps in
    record {
      each = changed_one.each;
      wired = changed_one.wired;
      only_sent =
          All-append _ (to_process i (deliver_new (nodes i) p).1) delivered taken sound.only_sent;
    }

-- In any run of a system of links from its start, on a network that loses, delays and repeats
-- datagrams: every packet that a process delivers was handed to `send`, as it is, for this process.
pub Run-delivers_sent :
    (indeterminate : ℕ → ℕ) {nodes : ℕ → Node} {sent wire delivered : List Addressed}
    → Run (λ i. node i (indeterminate i)) nodes sent wire delivered
    → All (λ a. Memᴰ a sent) delivered
Run-delivers_sent f r = (Run-Sound f r).only_sent

-- In such a run, for every acknowledgement among the datagrams: the process that it comes from has
-- delivered a packet from the addressee with this source and sequence number, or has one in hand to
-- deliver.
pub Run-acknowledges_handled :
    (indeterminate : ℕ → ℕ) {nodes : ℕ → Node} {sent wire delivered : List Addressed}
    → Run (λ i. node i (indeterminate i)) nodes sent wire delivered
    → (a : Addressed) → Memᴰ a wire
    → a.packet.is_ack ≡ true
    → handled a.dest_proc_id a.packet.source_id a.packet.packet_seq_num (nodes a.packet.process_id)
      ≡ true
Run-acknowledges_handled f r a m ack = (All-Memᴰ _ m (Run-Sound f r).wired).1 ack
