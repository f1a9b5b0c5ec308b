-- ===== src/BestEffortBroadcast/Packets.antt =====
-- What the packets of the queues have, those that are sent have.
use localized_causal_broadca.Prelude.{
  ℕ, ◌≡◌, refl, List, [], ◌∷◌, ltb, Option, none, some, All, Bool-cases, inl, inr, map-some, subst,
}
use localized_causal_broadca.Packet.{Packet}
use localized_causal_broadca.OutBox.{Addressed}
use localized_causal_broadca.Queue.{Queue, get_size, push, pop}
use localized_causal_broadca.Queue.Contents.{push-All, pop-All}
use localized_causal_broadca.BestEffortBroadcast.{
  BestEffortBroadcast, broadcast, re_broadcast, send_to_all, popped, drain, Turn, others_next,
  own_next, broadcast_half,
}

module _ (P : Packet → Type 0) where
  pub record Packets (b : BestEffortBroadcast) : Type 0 where
    pub own : All P b.packets_to_broadcast.items
    pub others : All P b.packets_to_re_broadcast.items

  abbrev pub Sends : List Addressed → Type 0
  Sends = All (λ a. P a.packet)

  pub broadcast-Packets :
      (b d : BestEffortBroadcast) (p : Packet)
      → Packets b
      → P p
      → broadcast b p ≡ some d
      → Packets d
  unfolding broadcast
  broadcast-Packets b d p h k e =
      let (q, pushed, same) = map-some _ (push b.packets_to_broadcast p) d e in
      rw (← same)
        (record { own = push-All P b.packets_to_broadcast q p h.own k pushed; others = h.others })

  pub re_broadcast-Packets :
      (b d : BestEffortBroadcast) (p : Packet)
      → Packets b
      → P p
      → re_broadcast b p ≡ some d
      → Packets d
  unfolding re_broadcast
  re_broadcast-Packets b d p h k e =
      let (q, pushed, same) = map-some _ (push b.packets_to_re_broadcast p) d e in
      rw (← same) (record {
        own = h.own;
        others = push-All P b.packets_to_re_broadcast q p h.others k pushed;
      })

  send_to_all-Sends : (hosts : List ℕ) (p : Packet) → P p → Sends (send_to_all hosts p)
  unfolding send_to_all
  send_to_all-Sends [] p h = tt
  send_to_all-Sends (host ∷ hosts) p h = (h, send_to_all-Sends hosts p h)

  abbrev Drained : Option (List Addressed × Queue Packet) → Type 0
  Drained none = Unit {0}
  Drained (some (sends, q)) = Sends sends × All P q.items

  popped-Drained :
      (b : BestEffortBroadcast) (q : Queue Packet) (o : Option (Packet × Queue Packet))
      → All P q.items
      → pop q ≡ o
      → Drained (popped b o)
  unfolding popped
  popped-Drained b q none h e = tt
  popped-Drained b q (some (p, rest)) h e =
      let (first, others) = pop-All P q rest p h e in (send_to_all-Sends b.hosts p first, others)

  drain-Drained : (b : BestEffortBroadcast) (q : Queue Packet) → All P q.items → Drained (drain b q)
  unfolding drain
  drain-Drained b q h = elim (Bool-cases (ltb 0 (get_size q))) [
    | inl some_packet ↦ rw some_packet (popped-Drained b q (pop q) h refl)
    | inr empty ↦ rw empty (tt, h)
  ]

  pub broadcast_half-Packets :
      (b d : BestEffortBroadcast) (turn next : Turn) (sends : List Addressed)
      → Packets b
      → broadcast_half b turn ≡ some (d, next, sends)
      → Packets d × Sends sends
  unfolding broadcast_half
  broadcast_half-Packets b d others_next next sends h e =
      let ((sent, q), drained, same) =
        map-some _ (drain b b.packets_to_re_broadcast) (d, next, sends) e in
      let (sent', rest) =
        subst Drained drained (drain-Drained b b.packets_to_re_broadcast h.others) in
      subst (λ (x : BestEffortBroadcast × Turn × List Addressed). Packets x.0 × Sends x.2) same
        (record { own = h.own; others = rest }, sent')
  broadcast_half-Packets b d own_next next sends h e =
      let ((sent, q), drained, same) =
        map-some _ (drain b b.packets_to_broadcast) (d, next, sends) e in
      let (sent', rest) = subst Drained drained (drain-Drained b b.packets_to_broadcast h.own) in
      subst (λ (x : BestEffortBroadcast × Turn × List Addressed). Packets x.0 × Sends x.2) same
        (record { own = rest; others = h.others }, sent')
