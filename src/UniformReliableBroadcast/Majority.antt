-- ===== src/UniformReliableBroadcast/Majority.antt =====
-- What stands behind a delivery: copies from more than half of the processes.
use localized_causal_broadca.Prelude.{
  ℕ, ◌/◌, ◌≤◌, ◌<◌, ◌≡◌, refl, Bool, true, false, ◌&&◌, ◌||◌, List, [], ◌∷◌, ◌++◌, arith, ◌==◌,
  if◌then◌else◌, Option, inl, inr, All,
}
use localized_causal_broadca.Containers.Set.{
  NumSet, member, size, IsSorted, member-insert, member-nil, insert-IsSorted, size-insert_le,
  member-All,
}
use localized_causal_broadca.Containers.Set.Quorum.{majorities_meet}
use localized_causal_broadca.Packet.{Packet}
use localized_causal_broadca.UniformReliableBroadcast
use localized_causal_broadca.UniformReliableBroadcast.{
  Urb, Action, delivers, re_broadcasts, is_delivered, acks_of, add_ack, add_pending, is_new,
  move_to_delivered, can_deliver, first_section, second_section, broadcast,
}
use localized_causal_broadca.UniformReliableBroadcast.Sections.{
  Run, start, arrive, settle, own, has_id, is_delivered-add_ack, is_delivered-move, acks_of-add_ack,
  first_section_cases, second_section_cases, start-unknown,
}

module _ (s n : ℕ) where
  -- a copy of the packet came from process `x`
  abbrev pub heard_from : ℕ → List Packet → Bool
  heard_from x [] = false
  heard_from x (p ∷ ps) = if has_id s n p && p.process_id == x then true else heard_from x ps

  heard_from-append :
      (x : ℕ) (ps qs : List Packet) → heard_from x (ps ++ qs) ≡ (heard_from x ps || heard_from x qs)
  heard_from-append x [] qs = refl
  heard_from-append x (p ∷ ps) qs = ground (arith, heard_from-append x ps qs)

  pub record Backed (k : ℕ) (u : Urb) (ps : List Packet) : Type 0 where
    pub known : u.num_processes ≡ k
    pub sorted : IsSorted (acks_of u s n)
    pub heard : (x : ℕ) → member x (acks_of u s n) ≡ true → heard_from x ps ≡ true
    pub majority : is_delivered u s n ≡ true → k / 2 < size (acks_of u s n)

  add_ack-Backed :
      (k : ℕ) (u : Urb) (p : Packet) (ps : List Packet)
      → Backed k u ps
      → Backed k (add_ack u p) (ps ++ p ∷ [])
  add_ack-Backed k u p ps b = record {
    known = unfold add_ack in b.known;
    sorted =
        ground
          (arith, acks_of-add_ack s n u p, b.sorted, insert-IsSorted p.process_id (acks_of u s n));
    heard = λ x h. ground (
      arith,
      acks_of-add_ack s n u p,
      member-insert x p.process_id (acks_of u s n),
      heard_from-append x ps (p ∷ []),
      b.heard x,
    );
    majority = λ h. ground (
      arith,
      acks_of-add_ack s n u p,
      is_delivered-add_ack s n u p,
      b.majority,
      size-insert_le p.process_id (acks_of u s n),
    );
  }

  add_pending-Backed :
      (k : ℕ) (u : Urb) (p : Packet) (ps : List Packet)
      → Backed k u ps
      → Backed k (add_pending u p) ps
  unfolding add_pending is_delivered
  add_pending-Backed k u p ps b = record {
    known = b.known;
    sorted = b.sorted;
    heard = b.heard;
    majority = b.majority;
  }

  broadcast-Backed :
      (k : ℕ) (u : Urb) (p : Packet) (ps : List Packet)
      → Backed k u ps
      → Backed k (broadcast u p).0 ps
  unfolding broadcast
  broadcast-Backed k u p ps b = add_pending-Backed k u p ps b

  acks_of-move : (u : Urb) (q : Packet) → acks_of (move_to_delivered u q) s n ≡ acks_of u s n
  unfolding move_to_delivered
  acks_of-move u q = refl

  enough :
      (k : ℕ) (u : Urb) (q : Packet)
      → u.num_processes ≡ k
      → has_id s n q ≡ true
      → can_deliver u q.source_id q.packet_seq_num ≡ true
      → k / 2 < size (acks_of u s n)
  unfolding can_deliver
  enough k u q e h c = ground arith

  move-Backed :
      (k : ℕ) (u : Urb) (q : Packet) (ps : List Packet)
      → can_deliver u q.source_id q.packet_seq_num ≡ true
      → Backed k u ps
      → Backed k (move_to_delivered u q) ps
  move-Backed k u q ps c b = record {
    known = unfold move_to_delivered in b.known;
    sorted = rw (acks_of-move u q) b.sorted;
    heard = rw (acks_of-move u q) b.heard;
    majority =
        rw (acks_of-move u q)
          (λ h. ground (arith, is_delivered-move s n u q, b.majority, enough k u q b.known));
  }

  pub Run-Backed :
      (id k : ℕ) {v : Urb} {held : Option Packet} {ps : List Packet} {trace : List Action}
      → Run (UniformReliableBroadcast.start id k) v held ps trace
      → Backed k v ps
  Run-Backed id k start =
      let begin = start-unknown id k s n in
      record {
        known = unfold UniformReliableBroadcast.start in refl;
        sorted = rw begin.2 tt;
        heard = λ x. rw (begin.2, member-nil x) (λ h. cc);
        majority = rw begin.1 (λ h. cc);
      }
  Run-Backed id k (arrive {v = v} {w = w} {ps = ps} {more = more} {q = q} p r h) =
      let b = add_ack-Backed k v p ps (Run-Backed id k r) in
      elim (first_section_cases v w p q more h) [
        | inl (e, _, _, _) ↦ rw e b
        | inr (_, _, e, _) ↦ rw e (add_pending-Backed k (add_ack v p) p (ps ++ p ∷ []) b)
      ]
  Run-Backed id k (settle {v = v} {ps = ps} {q = q} r) = elim (second_section_cases v q) [
    | inl e ↦ rw e (Run-Backed id k r)
    | inr (c, _, _, e) ↦ rw e (move-Backed k v q ps c (Run-Backed id k r))
  ]
  Run-Backed id k (own {v = v} {ps = ps} p r) = broadcast-Backed k v p ps (Run-Backed id k r)

  -- A process of a system of `k` delivers only what it received from more than half of the `k`
  -- processes: there is a set of more than k / 2 senders, from each of which a copy arrived.
  pub Run-majority :
      (id k : ℕ) {v : Urb} {held : Option Packet} {ps : List Packet} {trace : List Action}
      → Run (UniformReliableBroadcast.start id k) v held ps trace
      → is_delivered v s n ≡ true
      → (senders : NumSet) × IsSorted senders
        × (k / 2 < size senders)
        × ((x : ℕ) → member x senders ≡ true → heard_from x ps ≡ true)
  Run-majority id k {v = v} r d =
      let b = Run-Backed id k r in (acks_of v s n, b.sorted, b.majority d, b.heard)

  -- the arrivals come from processes 1 .. k
  abbrev pub FromSystem : ℕ → List Packet → Type 0
  FromSystem k = All (λ p. (0 < p.process_id) × (p.process_id ≤ k))

  heard_from-Within :
      (k x : ℕ) (ps : List Packet) → FromSystem k ps → heard_from x ps ≡ true → (0 < x) × (x ≤ k)
  heard_from-Within k x [] f h = cc
  heard_from-Within k x (p ∷ ps) (f, fs) h = ground (arith, heard_from-Within k x ps fs)

  -- If two processes of a system of `k` have delivered the same packet, and all that arrived came
  -- from processes of the system, then a copy of it from one and the same process reached both.
  pub deliveries_share_sender :
      (id id' k : ℕ) {v v' : Urb} {held held' : Option Packet} {ps ps' : List Packet}
      {trace trace' : List Action}
      → Run (UniformReliableBroadcast.start id k) v held ps trace
      → Run (UniformReliableBroadcast.start id' k) v' held' ps' trace'
      → FromSystem k ps
      → FromSystem k ps'
      → is_delivered v s n ≡ true
      → is_delivered v' s n ≡ true
      → (x : ℕ) × (heard_from x ps ≡ true) × (heard_from x ps' ≡ true)
  deliveries_share_sender id id' k {ps = ps} {ps' = ps'} r r' f f' d d' =
      let (a, sorted, more, heard) = Run-majority id k r d in
      let (a', sorted', more', heard') = Run-majority id' k r' d' in
      let within =
        member-All (λ x. (0 < x) × (x ≤ k)) a (λ x m. heard_from-Within k x ps f (heard x m)) in
      let within' =
        member-All (λ x. (0 < x) × (x ≤ k)) a' (λ x m. heard_from-Within k x ps' f' (heard' x m)) in
      let (x, here, there) = majorities_meet k a a' sorted sorted' within within' more more' in
      (x, heard x here, heard' x there)
