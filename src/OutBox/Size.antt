-- ===== src/OutBox/Size.antt =====
-- The box as a set of keys (destination, source, sequence number), and what its counter counts.
use localized_causal_broadca.Prelude.{
  ℕ, ◌+◌, ◌-◌, ◌%◌, ◌≤◌, ◌<◌, ◌≡◌, refl, Bool, true, false, ◌&&◌, [], arith, ◌==◌, if◌then◌else◌,
  word_size, length, All, some, Bool-cases, inl, inr,
}
use localized_causal_broadca.Containers.Map.{
  NumMap, at, put, has, remove, at-put, has-put, has-remove,
}
use localized_causal_broadca.Containers.Map.Count.{
  IsOrdered, sum_by, put-IsOrdered, remove-IsOrdered, length-put, length-remove, sum_by-put, at-All,
  put-All,
}
use localized_causal_broadca.Packet.{Packet}
use localized_causal_broadca.OutBox.{
  OutBox, Addressed, BySeq, BySource, slot, with_slot, holds, add_packet, remove_packet,
}

abbrev pub IsTidySource : BySource → Type 0
IsTidySource m = IsOrdered m × All (λ e. IsOrdered e.1) m

-- The maps of the box are ordered, as std::map keeps them.
abbrev pub IsTidy : NumMap BySource → Type 0
IsTidy m = IsOrdered m × All (λ e. IsTidySource e.1) m

abbrev pub source_total : BySource → ℕ
source_total = sum_by length

-- how many packets the box holds
abbrev pub total : OutBox → ℕ
total o = sum_by source_total o.packets

module _ (o : OutBox) (dest_id source_id : ℕ) (tidy : IsTidy o.packets) where
  pub inner : IsTidySource (at [] dest_id o.packets)
  inner = at-All IsTidySource [] dest_id o.packets (tt, tt) tidy.1

  pub slot-IsOrdered : IsOrdered (slot o dest_id source_id)
  slot-IsOrdered =
      at-All (λ s. IsOrdered {V = Packet} s) [] source_id (at [] dest_id o.packets) tt inner.1

  with_slot-IsTidy : (s : BySeq) → IsOrdered s → IsTidy (with_slot o dest_id source_id s)
  with_slot-IsTidy s h = (
    put-IsOrdered dest_id _ o.packets tidy.0,
    put-All IsTidySource dest_id _ o.packets
        (
          put-IsOrdered source_id s (at [] dest_id o.packets) inner.0,
          put-All (λ t. IsOrdered {V = Packet} t) source_id s (at [] dest_id o.packets) h inner.1,
        )
        tidy.1,
  )

  -- Writing a slot changes the total by the slot.
  total-with_slot :
      (s : BySeq)
      → sum_by source_total (with_slot o dest_id source_id s) + length (slot o dest_id source_id)
        ≡ total o + length s
  total-with_slot s = omega (
    arith,
    sum_by-put source_total [] dest_id (put source_id s (at [] dest_id o.packets)) o.packets refl
        tidy.0,
    sum_by-put length [] source_id s (at [] dest_id o.packets) refl inner.0,
  )

-- one if the key's packet was there
abbrev pub one_if : Bool → ℕ
one_if b = if b then 1 else 0

-- the key that a packet is stored under is in use
abbrev pub holds_key : OutBox → Addressed → Bool
holds_key o a = holds o a.dest_proc_id a.packet.source_id a.packet.packet_seq_num

module _ (o : OutBox) (a : Addressed) where
  open a use {dest_proc_id, packet}

  old_slot : BySeq
  old_slot = slot o dest_proc_id packet.source_id

  unfoldable pub added : OutBox
  unfolding old_slot
  added = record o {
    curr_size = (o.curr_size + 1) % word_size;
    packets = with_slot o dest_proc_id packet.source_id (put packet.packet_seq_num packet old_slot);
  }

  pub add_packet-added : o.curr_size < o.max_size → add_packet o a ≡ some added
  unfolding add_packet added
  add_packet-added h = ground arith

  pub size-added : added.curr_size ≡ (o.curr_size + 1) % word_size
  unfolding added
  size-added = refl

  pub total-added : IsTidy o.packets → total added + one_if (holds_key o a) ≡ total o + 1
  unfolding added holds
  total-added tidy = ground (
    arith,
    total-with_slot o dest_proc_id packet.source_id tidy
        (put packet.packet_seq_num packet old_slot),
    length-put packet.packet_seq_num packet old_slot
        (slot-IsOrdered o dest_proc_id packet.source_id tidy),
  )

  pub added-IsTidy : IsTidy o.packets → IsTidy added.packets
  unfolding added
  added-IsTidy tidy =
      with_slot-IsTidy o dest_proc_id packet.source_id tidy
        (put packet.packet_seq_num packet old_slot)
        (put-IsOrdered packet.packet_seq_num packet old_slot
          (slot-IsOrdered o dest_proc_id packet.source_id tidy))

-- A box that is not full takes any packet.
pub add_packet-room :
    (o : OutBox) (a : Addressed)
    → o.curr_size < o.max_size
    → o.max_size < word_size
    → (r : OutBox) × (add_packet o a ≡ some r)
      × (r.curr_size ≡ o.curr_size + 1)
      × (r.max_size ≡ o.max_size)
add_packet-room o a room small =
    (added o a, add_packet-added o a room, unfold added in omega arith, unfold added in refl)

-- A box with ordered maps that is not full takes any packet, and stays within its bound. Its
-- counter, if it was right, stays so if the box held no packet under the key; otherwise that one is
-- overwritten, and the counter says one more than there are.
pub add_packet-counts :
    (o : OutBox) (a : Addressed)
    → IsTidy o.packets
    → o.curr_size ≡ total o
    → o.curr_size < o.max_size
    → o.max_size < word_size
    → (r : OutBox) × (add_packet o a ≡ some r)
      × IsTidy r.packets
      × (r.max_size ≡ o.max_size)
      × (r.curr_size ≤ r.max_size)
      × (r.curr_size ≡ total r + one_if (holds_key o a))
add_packet-counts o a tidy tight room small = (
  added o a,
  add_packet-added o a room,
  added-IsTidy o a tidy,
  unfold added in refl,
  unfold added in omega arith,
  omega (arith, total-added o a tidy, size-added o a),
)

module _ (o : OutBox) (dest_id source_id seq_num : ℕ) where
  unfoldable pub removed : OutBox
  removed = (remove_packet o dest_id source_id seq_num).0

  remove_packet-flag :
      (remove_packet o dest_id source_id seq_num).1 ≡ holds o dest_id source_id seq_num
  unfolding remove_packet holds
  remove_packet-flag = ground arith

  pub remove-total :
      IsTidy o.packets → total o ≡ total removed + one_if (holds o dest_id source_id seq_num)
  unfolding removed remove_packet holds
  remove-total tidy = ground (
    arith,
    total-with_slot o dest_id source_id tidy (remove seq_num (slot o dest_id source_id)),
    length-remove seq_num (slot o dest_id source_id) (slot-IsOrdered o dest_id source_id tidy),
  )

  pub remove-IsTidy : IsTidy o.packets → IsTidy removed.packets
  unfolding removed remove_packet
  remove-IsTidy tidy = elim (Bool-cases (has seq_num (slot o dest_id source_id))) [
    | inl e ↦
        rw (e, removed)
          (with_slot-IsTidy o dest_id source_id tidy (remove seq_num (slot o dest_id source_id)) (
            remove-IsOrdered seq_num (slot o dest_id source_id)
              (slot-IsOrdered o dest_id source_id tidy)))
    | inr e ↦ rw (e, removed) tidy
  ]

  pub remove-size : removed.curr_size ≡ (
      if holds o dest_id source_id seq_num
      then (o.curr_size + (word_size - 1)) % word_size
      else o.curr_size)
  unfolding removed remove_packet holds
  remove-size = ground arith

  pub remove-max : removed.max_size ≡ o.max_size
  unfolding removed remove_packet
  remove-max = ground arith

-- From a box with ordered maps, whose counter is right and within its bound, a removal says whether
-- the box held the packet, and keeps the counter right and within its bound.
pub remove_packet-counts :
    (o : OutBox) (dest_id source_id seq_num : ℕ)
    → IsTidy o.packets
    → o.curr_size ≡ total o
    → o.curr_size ≤ o.max_size
    → o.max_size < word_size
    → let r = (remove_packet o dest_id source_id seq_num).0 in
      ((remove_packet o dest_id source_id seq_num).1 ≡ holds o dest_id source_id seq_num)
      × IsTidy r.packets
      × (r.max_size ≡ o.max_size)
      × (r.curr_size ≡ total r)
      × (r.curr_size ≤ r.max_size)
unfolding removed
remove_packet-counts o dest_id source_id seq_num tidy tight bound small =
    let size = remove-size o dest_id source_id seq_num in
    let sum = remove-total o dest_id source_id seq_num tidy in
    (
      remove_packet-flag o dest_id source_id seq_num,
      remove-IsTidy o dest_id source_id seq_num tidy,
      remove-max o dest_id source_id seq_num,
      ground (arith, size, sum),
      ground (arith, size, sum, remove-max o dest_id source_id seq_num),
    )

-- A write to one slot leaves the others.
slot-with_slot :
    (o : OutBox) (t : BySeq) (d s d' s' : ℕ)
    → at [] s' (at [] d' (with_slot o d s t)) ≡ (if d == d' && s == s' then t else slot o d' s')
slot-with_slot o t d s d' s' = ground (
  arith,
  at-put [] d' d (put s t (at [] d o.packets)) o.packets,
  at-put [] s' s t (at [] d o.packets),
)

-- the two keys are the same
abbrev pub same_key : ℕ → ℕ → ℕ → ℕ → ℕ → ℕ → Bool
same_key d s n d' s' n' = d == d' && (s == s' && n == n')

-- An insertion adds the packet's key to those that the box holds.
pub holds-add_packet :
    (o r : OutBox) (a : Addressed) (d s n : ℕ)
    → add_packet o a ≡ some r
    → holds r d s n ≡ (
        if same_key a.dest_proc_id a.packet.source_id a.packet.packet_seq_num d s n
        then true
        else holds o d s n)
unfolding add_packet holds
holds-add_packet o r a d s n h = ground (
  arith,
  slot-with_slot o (put a.packet.packet_seq_num a.packet (slot o a.dest_proc_id a.packet.source_id))
      a.dest_proc_id a.packet.source_id d s,
  has-put n a.packet.packet_seq_num a.packet (slot o a.dest_proc_id a.packet.source_id),
)

-- A removal takes the key away, and no other.
pub holds-remove_packet :
    (o : OutBox) (dest_id source_id seq_num d s n : ℕ)
    → holds (remove_packet o dest_id source_id seq_num).0 d s n
      ≡ (if same_key dest_id source_id seq_num d s n then false else holds o d s n)
unfolding remove_packet holds
holds-remove_packet o dest_id source_id seq_num d s n = ground (
  arith,
  slot-with_slot o (remove seq_num (slot o dest_id source_id)) dest_id source_id d s,
  has-remove n seq_num (slot o dest_id source_id),
)
