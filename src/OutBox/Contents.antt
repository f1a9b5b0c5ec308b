-- ===== src/OutBox/Contents.antt =====
-- What all packets of the outbox have, each with its destination.
use localized_causal_broadca.Prelude.{
  ℕ, ◌≡◌, sym, [], ◌∷◌, arith, All, All-map, All-append, Bool-cases, inl, inr, subst, some,
}
use localized_causal_broadca.Containers.Map.{NumMap, at, put, remove, has}
use localized_causal_broadca.Containers.Map.Entries.{
  Entries, Entries-put, Entries-at, Entries-remove,
}
use localized_causal_broadca.Packet.{Packet}
use localized_causal_broadca.OutBox.{
  OutBox, Addressed, BySeq, BySource, slot, with_slot, create, add_packet, remove_packet, send_seqs,
  send_sources, send_dests, send_packets,
}

module _ {κ} (P : Addressed → Type κ) where
  -- the packets for a process, of one source
  abbrev pub InSlot : ℕ → BySeq → Type κ
  InSlot dest_id = Entries (λ n p. P (record { packet = p; dest_proc_id = dest_id }))

  abbrev pub InSources : ℕ → BySource → Type κ
  InSources dest_id = Entries (λ s m. InSlot dest_id m)

  abbrev pub InBox : NumMap BySource → Type κ
  InBox = Entries InSources

  -- Each packet of the box has it, with its destination.
  pub record Contents (o : OutBox) : Type κ where
    pub inside : InBox o.packets

  pub slot-InSlot : (o : OutBox) (d s : ℕ) → Contents o → InSlot d (slot o d s)
  slot-InSlot o d s h =
      Entries-at (λ s m. InSlot d m) [] s (at [] d o.packets) tt
        (Entries-at InSources [] d o.packets tt h.inside)

  with_slot-InBox :
      (o : OutBox) (d s : ℕ) (m : BySeq) → Contents o → InSlot d m → InBox (with_slot o d s m)
  with_slot-InBox o d s m h k =
      Entries-put InSources d (put s m (at [] d o.packets)) o.packets
        (Entries-put (λ s m. InSlot d m) s m (at [] d o.packets) k
          (Entries-at InSources [] d o.packets tt h.inside))
        h.inside

  pub create-Contents : (indeterminate : ℕ) → Contents (create indeterminate)
  unfolding create
  create-Contents indeterminate = record { inside = tt }

  -- what the box has under the keys of the packet, behind `addPacket`
  abbrev slot_with : OutBox → Addressed → BySeq
  slot_with o a = put a.packet.packet_seq_num a.packet (slot o a.dest_proc_id a.packet.source_id)

  add_packet-packets :
      (o r : OutBox) (a : Addressed)
      → add_packet o a ≡ some r
      → r.packets ≡ with_slot o a.dest_proc_id a.packet.source_id (slot_with o a)
  unfolding add_packet
  add_packet-packets o r a e = ground arith

  pub add_packet-Contents :
      (o r : OutBox) (a : Addressed) → Contents o → P a → add_packet o a ≡ some r → Contents r
  add_packet-Contents o r a h p e =
      let d = a.dest_proc_id in
      let s = a.packet.source_id in
      let n = a.packet.packet_seq_num in
      record {
        inside = subst InBox (sym (add_packet-packets o r a e)) (
            with_slot-InBox o d s (slot_with o a) h (
              Entries-put (λ n p. P (record { packet = p; dest_proc_id = d })) n a.packet
                (slot o d s) p (slot-InSlot o d s h)));
      }

  pub remove_packet-Contents :
      (o : OutBox) (d s n : ℕ) → Contents o → Contents (remove_packet o d s n).0
  unfolding remove_packet
  remove_packet-Contents o d s n h = elim (Bool-cases (has n (slot o d s))) [
    | inl found ↦ rw found (record {
      inside = with_slot-InBox o d s (remove n (slot o d s)) h (
          Entries-remove (λ n p. P (record { packet = p; dest_proc_id = d })) n (slot o d s)
            (slot-InSlot o d s h));
    })
    | inr missing ↦ rw missing h
  ]

  send_seqs-All : (d : ℕ) (m : BySeq) → InSlot d m → All P (send_seqs d m)
  unfolding send_seqs
  send_seqs-All d [] h = tt
  send_seqs-All d ((n, p) ∷ m) (q, h) = (q, send_seqs-All d m h)

  send_sources-All : (d : ℕ) (m : BySource) → InSources d m → All P (send_sources d m)
  unfolding send_sources
  send_sources-All d [] h = tt
  send_sources-All d ((s, w) ∷ m) (q, h) =
      All-append P (send_seqs d w) (send_sources d m) (send_seqs-All d w q) (send_sources-All d m h)

  send_dests-All : (m : NumMap BySource) → InBox m → All P (send_dests m)
  unfolding send_dests
  send_dests-All [] h = tt
  send_dests-All ((d, w) ∷ m) (q, h) =
      All-append P (send_sources d w) (send_dests m) (send_sources-All d w q) (send_dests-All m h)

  -- So has what a round of `sendPackets` sends.
  pub send_packets-All : (o : OutBox) → Contents o → All P (send_packets o)
  unfolding send_packets
  send_packets-All o h = send_dests-All o.packets h.inside

pub Contents-map {κ μ} :
    (P : Addressed → Type κ) (Q : Addressed → Type μ)
    → ((a : Addressed) → P a → Q a)
    → (o : OutBox) → Contents P o
    → Contents Q o
Contents-map P Q f o h = record {
  inside =
      All-map (λ e. All-map (λ (s : ℕ × BySeq). All-map (λ (n : ℕ × Packet). f _) s.1) e.1)
        o.packets h.inside;
}
