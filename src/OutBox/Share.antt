-- ===== src/OutBox/Share.antt =====
-- How many of the packets of the box are for one process.
use localized_causal_broadca.Prelude.{
  ℕ, ◌+◌, ◌≤◌, ◌<◌, ◌≡◌, ◌≢◌, refl, sym, subst, ◌∙◌, [], ◌∷◌, arith, ◌==◌, if◌then◌else◌, word_size,
  length, All, some, Bool-cases, inl, inr,
}
use localized_causal_broadca.Containers.Map.{NumMap, at, put, remove, at-put}
use localized_causal_broadca.Containers.Map.Count.{sum_by, length-put, sum_by-put}
use localized_causal_broadca.OutBox.{
  OutBox, Addressed, BySeq, BySource, slot, with_slot, holds, add_packet, remove_packet,
}
use localized_causal_broadca.OutBox.Contents.{Contents, InSlot, InSources, InBox}
use localized_causal_broadca.OutBox.Size.{
  IsTidy, source_total, total, inner, slot-IsOrdered, added, removed, added-IsTidy,
  add_packet-added, size-added, total-added, remove-total, remove-IsTidy, remove-size, remove-max,
}

module _ {ℓ} {V : Type ℓ} (weight : V → ℕ) (d : V) (k : ℕ) where
  -- One entry weighs no more than all of them.
  at-sum_by : (m : NumMap V) → weight d ≡ 0 → weight (at d k m) ≤ sum_by weight m
  unfolding at
  at-sum_by [] z = omega (arith, z)
  at-sum_by ((j, w) ∷ m) z = ground (arith, at-sum_by m z)

  -- If it weighs as much, the others weigh nothing.
  light : (m : NumMap V) → sum_by weight m ≡ 0 → All (λ e. e.0 ≢ k → weight e.1 ≡ 0) m
  light [] h = tt
  light ((j, w) ∷ m) h = (λ other. omega (arith, h), light m (omega (arith, h)))

  others-light :
      (m : NumMap V)
      → weight d ≡ 0
      → sum_by weight m ≤ weight (at d k m)
      → All (λ e. e.0 ≢ k → weight e.1 ≡ 0) m
  unfolding at
  others-light [] z h = tt
  others-light ((j, w) ∷ m) z h = elim (Bool-cases (j == k)) [
    | inl e ↦ (λ other. absurd (ground (arith, e, other)), light m (ground (arith, e, h)))
    | inr e ↦
        let below = at-sum_by m z in
        (λ other. ground (arith, e, h, below), others-light m z (ground (arith, e, h)))
  ]

module _ (d : ℕ) where
  -- how many of the packets are for `d`
  abbrev pub share : OutBox → ℕ
  share o = source_total (at [] d o.packets)

  pub share-total : (o : OutBox) → share o ≤ total o
  share-total o = at-sum_by source_total [] d o.packets refl

  share-with_slot :
      (o : OutBox) (j s : ℕ) (t : BySeq)
      → IsTidy o.packets
      → source_total (at [] d (with_slot o j s t)) + (if j == d then length (slot o j s) else 0)
        ≡ share o + (if j == d then length t else 0)
  share-with_slot o j s t tidy = ground (
    arith,
    at-put [] d j (put s t (at [] j o.packets)) o.packets,
    sum_by-put length [] s t (at [] j o.packets) refl (inner o j s tidy).0,
  )

  -- An insertion counts one up. What the box holds for the others grows by one at most, and by
  -- none when the packet is for `d`.
  pub record Inserted (o r : OutBox) (a : Addressed) : Type 0 where
    pub tidy : IsTidy r.packets
    pub bound : r.max_size ≡ o.max_size
    pub counted : r.curr_size ≡ o.curr_size + 1
    pub room : o.curr_size ≢ o.max_size
    pub others : total r + share o ≤ total o + share r + (if a.dest_proc_id == d then 0 else 1)

  added-Inserted :
      (o : OutBox) (a : Addressed)
      → IsTidy o.packets
      → o.curr_size < o.max_size
      → o.max_size < word_size
      → Inserted o (added o a) a
  unfolding added holds
  added-Inserted o a tidy room small = record {
    tidy = added-IsTidy o a tidy;
    bound = refl;
    counted = omega (arith, size-added o a, room, small);
    room = λ e. omega (arith, e, room);
    others = ground (
      arith,
      total-added o a tidy,
      share-with_slot o a.dest_proc_id a.packet.source_id
          (put a.packet.packet_seq_num a.packet (slot o a.dest_proc_id a.packet.source_id)) tidy,
      length-put a.packet.packet_seq_num a.packet (slot o a.dest_proc_id a.packet.source_id)
          (slot-IsOrdered o a.dest_proc_id a.packet.source_id tidy),
    );
  }

  room_for : (o r : OutBox) (a : Addressed) → add_packet o a ≡ some r → o.curr_size ≢ o.max_size
  unfolding add_packet
  room_for o r a e full = ground (arith, e, full)

  pub add_packet-Inserted :
      (o r : OutBox) (a : Addressed)
      → IsTidy o.packets
      → o.curr_size ≤ o.max_size
      → o.max_size < word_size
      → add_packet o a ≡ some r
      → Inserted o r a
  add_packet-Inserted o r a tidy bound small e =
      let not_full = room_for o r a e in
      let room : o.curr_size < o.max_size = omega (arith, bound, not_full) in
      let both : some (added o a) ≡ some r = sym (add_packet-added o a room) ∙ e in
      let same : added o a ≡ r = cc in
      subst (λ x. Inserted o x a) same (added-Inserted o a tidy room small)

  -- A removal of another's packet counts one down when it was there, and leaves the share.
  pub record Removed (o r : OutBox) : Type 0 where
    pub tidy : IsTidy r.packets
    pub bound : r.max_size ≡ o.max_size
    pub counted : r.curr_size ≤ o.curr_size
    pub kept : share r ≡ share o
    pub others : total r + o.curr_size ≤ total o + r.curr_size

  share-remove_packet : (o : OutBox) (j s k : ℕ) → j ≢ d → share (remove_packet o j s k).0 ≡ share o
  unfolding remove_packet
  share-remove_packet o j s k other =
      ground
        (arith, other, at-put [] d j (put s (remove k (slot o j s)) (at [] j o.packets)) o.packets)

  pub remove_packet-Removed :
      (o : OutBox) (j s k : ℕ)
      → IsTidy o.packets
      → j ≢ d
      → total o ≤ o.curr_size + share o
      → o.curr_size < word_size
      → Removed o (remove_packet o j s k).0
  unfolding removed
  remove_packet-Removed o j s k tidy other covered small =
      let r = (remove_packet o j s k).0 in
      let same : share r ≡ share o = share-remove_packet o j s k other in
      let size = remove-size o j s k in
      let sum = remove-total o j s k tidy in
      let below = share-total r in
      record {
        tidy = remove-IsTidy o j s k tidy;
        bound = remove-max o j s k;
        counted = ground (arith, size, sum, below, same);
        kept = same;
        others = ground (arith, size, sum, below, same);
      }

  own_seqs : (j : ℕ) (s : BySeq) → j ≡ d → InSlot (λ a. a.dest_proc_id ≡ d) j s
  own_seqs j [] e = tt
  own_seqs j (p ∷ s) e = (e, own_seqs j s e)

  own_sources : (j : ℕ) (m : BySource) → j ≡ d → InSources (λ a. a.dest_proc_id ≡ d) j m
  own_sources j [] e = tt
  own_sources j ((s, seqs) ∷ m) e = (own_seqs j seqs e, own_sources j m e)

  no_seqs : (j : ℕ) (s : BySeq) → length s ≡ 0 → InSlot (λ a. a.dest_proc_id ≡ d) j s
  no_seqs j [] e = tt
  no_seqs j (p ∷ s) e = absurd (omega (arith, e))

  no_sources : (j : ℕ) (m : BySource) → source_total m ≡ 0 → InSources (λ a. a.dest_proc_id ≡ d) j m
  no_sources j [] e = tt
  no_sources j ((s, seqs) ∷ m) e =
      (no_seqs j seqs (omega (arith, e)), no_sources j m (omega (arith, e)))

  light-InBox :
      (m : NumMap BySource)
      → All (λ e. e.0 ≢ d → source_total e.1 ≡ 0) m
      → InBox (λ a. a.dest_proc_id ≡ d) m
  light-InBox [] h = tt
  light-InBox ((j, sources) ∷ m) (empty, h) = (
    elim (Bool-cases (j == d)) [
      | inl e ↦ own_sources j sources (ground (arith, e))
      | inr e ↦ no_sources j sources (empty (λ same. ground (arith, e, same)))
    ],
    light-InBox m h,
  )

  -- A box whose packets are all in the share has none for another process.
  pub share-Contents : (o : OutBox) → total o ≤ share o → Contents (λ a. a.dest_proc_id ≡ d) o
  share-Contents o h = record {
    inside = light-InBox o.packets (others-light source_total [] d o.packets refl h);
  }
