-- ===== src/CausalBroadcast/Order.antt =====
-- What a correct history of a process is: which delivery and which broadcast may follow which
-- events.
use localized_causal_broadca.Prelude.{
  ℕ, ◌+◌, ◌%◌, ◌≤◌, ◌≡◌, List, [], ◌∷◌, ◌++◌, arith, ◌==◌, if◌then◌else◌, word_size, append_assoc,
  append-nil,
}
use localized_causal_broadca.Containers.Set.{NumSet, member}
use localized_causal_broadca.VectorClock.Access.{entry, IsProcess}
use localized_causal_broadca.CausalBroadcast.{Event, logs_broadcast, broadcasts, logs_delivered}

-- how many packets of the source `s` were delivered
abbrev pub delivered_from : ℕ → List Event → ℕ
delivered_from s [] = 0
delivered_from s (logs_delivered p ∷ es) = (if p.source_id == s then 1 else 0) + delivered_from s es
delivered_from s (logs_broadcast p ∷ es) = delivered_from s es
delivered_from s (broadcasts p ∷ es) = delivered_from s es

-- how many packets were broadcast
abbrev pub broadcast_count : List Event → ℕ
broadcast_count [] = 0
broadcast_count (logs_delivered p ∷ es) = broadcast_count es
broadcast_count (logs_broadcast p ∷ es) = broadcast_count es
broadcast_count (broadcasts p ∷ es) = 1 + broadcast_count es

pub delivered_from-append :
    (s : ℕ) (xs ys : List Event)
    → delivered_from s (xs ++ ys) ≡ delivered_from s xs + delivered_from s ys
delivered_from-append s [] ys = omega arith
delivered_from-append s (logs_delivered p ∷ xs) ys = omega (arith, delivered_from-append s xs ys)
delivered_from-append s (logs_broadcast p ∷ xs) ys = delivered_from-append s xs ys
delivered_from-append s (broadcasts p ∷ xs) ys = delivered_from-append s xs ys

pub broadcast_count-append :
    (xs ys : List Event) → broadcast_count (xs ++ ys) ≡ broadcast_count xs + broadcast_count ys
broadcast_count-append [] ys = omega arith
broadcast_count-append (logs_delivered p ∷ xs) ys = broadcast_count-append xs ys
broadcast_count-append (logs_broadcast p ∷ xs) ys = broadcast_count-append xs ys
broadcast_count-append (broadcasts p ∷ xs) ys = omega (arith, broadcast_count-append xs ys)

-- Process `id` of a system of `n`, affected by the processes of `locality`.
module _ (id n : ℕ) (locality : NumSet) where
  -- what an own packet's clock has for a process
  abbrev pub dependency : List Event → ℕ → ℕ
  dependency before j =
      if j == id
      then broadcast_count before % word_size
      else if member j locality
      then delivered_from j before % word_size
      else 0

  -- A delivery: the packet is the next of its source, and its clock asks for no more deliveries
  -- than there were. A broadcast: the packet is numbered by the broadcasts before it, and its clock
  -- asks for what this process has delivered from those that affect it, and for its own packets.
  abbrev pub Justified : List Event → Event → Type 0
  Justified before (logs_delivered p) =
      (p.packet_seq_num ≡ delivered_from p.source_id before % word_size)
      × ((j : ℕ) → IsProcess n j → entry p.vector_clock j ≤ delivered_from j before % word_size)
  Justified before (broadcasts p) =
      (p.source_id ≡ id)
      × (p.packet_seq_num ≡ broadcast_count before % word_size)
      × ((j : ℕ) → IsProcess n j → entry p.vector_clock j ≡ dependency before j)
  Justified before (logs_broadcast p) = Unit {0}

  -- every event is justified by those before it
  abbrev pub InOrder : List Event → List Event → Type 0
  InOrder before [] = Unit {0}
  InOrder before (e ∷ es) = Justified before e × InOrder (before ++ e ∷ []) es

  pub InOrder-append :
      (before xs ys : List Event)
      → InOrder before xs
      → InOrder (before ++ xs) ys
      → InOrder before (xs ++ ys)
  InOrder-append before [] ys h k = rw append-nil at k
  InOrder-append before (x ∷ xs) ys (j, h) k =
      (j, InOrder-append (before ++ x ∷ []) xs ys h (rw (← append_assoc before (x ∷ []) xs) at k))

  -- what holds at every place of a history in order
  pub InOrder-at :
      (before xs : List Event) (e : Event) (ys : List Event)
      → InOrder before (xs ++ e ∷ ys)
      → Justified (before ++ xs) e
  InOrder-at before [] e ys h = rw append-nil h.0
  InOrder-at before (x ∷ xs) e ys h =
      rw (← append_assoc before (x ∷ []) xs) (InOrder-at (before ++ x ∷ []) xs e ys h.1)

  pub InOrder-left : (before xs ys : List Event) → InOrder before (xs ++ ys) → InOrder before xs
  InOrder-left before [] ys h = tt
  InOrder-left before (x ∷ xs) ys (j, h) = (j, InOrder-left (before ++ x ∷ []) xs ys h)
