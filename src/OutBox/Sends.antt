-- ===== src/OutBox/Sends.antt =====
-- What a round of `sendPackets` sends.
use localized_causal_broadca.Prelude.{
  ℕ, ◌+◌, ◌≡◌, refl, false, ◌&&◌, List, [], ◌∷◌, ◌++◌, arith, ◌==◌, if◌then◌else◌, All, subst,
}
use localized_causal_broadca.Containers.Map.{NumMap, at, has}
use localized_causal_broadca.Containers.Map.Count.{IsOrdered, Above, has-Above, at-Above}
use localized_causal_broadca.OutBox.{
  OutBox, Addressed, BySeq, BySource, holds, send_seqs, send_sources, send_dests, send_packets,
}
use localized_causal_broadca.OutBox.Size.{IsTidy, IsTidySource}

-- Every packet stands under its own source and sequence number, where `addPacket` puts it.
abbrev pub IsKeyedSeq : ℕ → BySeq → Type 0
IsKeyedSeq source_id = All (λ e. (e.1.source_id ≡ source_id) × (e.1.packet_seq_num ≡ e.0))

abbrev pub IsKeyedSource : BySource → Type 0
IsKeyedSource = All (λ e. IsKeyedSeq e.0 e.1)

abbrev pub IsKeyed : NumMap BySource → Type 0
IsKeyed = All (λ e. IsKeyedSource e.1)

module _ (d s n : ℕ) where
  -- how often a packet of source `s` with number `n` is sent to process `d`
  abbrev pub times_sent : List Addressed → ℕ
  times_sent [] = 0
  times_sent (a ∷ rest) =
      (if a.dest_proc_id == d && a.packet.source_id == s && a.packet.packet_seq_num == n
        then 1
        else 0)
      + times_sent rest

  times_sent-append :
      (xs ys : List Addressed) → times_sent (xs ++ ys) ≡ times_sent xs + times_sent ys
  times_sent-append [] ys = omega arith
  times_sent-append (x ∷ xs) ys = ground (arith, times_sent-append xs ys)

  times_sent-seqs :
      (dest_id source_id : ℕ) (m : BySeq)
      → IsOrdered m
      → IsKeyedSeq source_id m
      → times_sent (send_seqs dest_id m)
        ≡ (if dest_id == d && source_id == s && has n m then 1 else 0)
  unfolding send_seqs has
  times_sent-seqs dest_id source_id [] o k = ground arith
  times_sent-seqs dest_id source_id ((j, p) ∷ m) (a, o) (e, k) =
      ground (arith, times_sent-seqs dest_id source_id m o k, has-Above j m a, e.0, e.1)

  missing_source : (m : BySource) → Above s m → has n (at [] s m) ≡ false
  unfolding has
  missing_source m a = rw (at-Above {V = BySeq} [] s m a) refl

  times_sent-sources :
      (dest_id : ℕ) (m : BySource)
      → IsTidySource m
      → IsKeyedSource m
      → times_sent (send_sources dest_id m) ≡ (if dest_id == d && has n (at [] s m) then 1 else 0)
  unfolding send_sources has at
  times_sent-sources dest_id [] t k = ground arith
  times_sent-sources dest_id ((j, w) ∷ m) ((a, o), (x, xs)) (e, k) = ground (
    arith,
    times_sent-append (send_seqs dest_id w) (send_sources dest_id m),
    times_sent-seqs dest_id j w x e,
    times_sent-sources dest_id m (o, xs) k,
    λ (h : j ≡ s). missing_source m (subst (λ i. Above i m) h a),
  )

  missing_dest : (m : NumMap BySource) → Above d m → has n (at [] s (at [] d m)) ≡ false
  unfolding has at
  missing_dest m a = rw (at-Above {V = BySource} [] d m a) refl

  times_sent-dests :
      (m : NumMap BySource)
      → IsTidy m
      → IsKeyed m
      → times_sent (send_dests m) ≡ (if has n (at [] s (at [] d m)) then 1 else 0)
  unfolding send_dests has at
  times_sent-dests [] t k = refl
  times_sent-dests ((j, w) ∷ m) ((a, o), (x, xs)) (e, k) = ground (
    arith,
    times_sent-append (send_sources j w) (send_dests m),
    times_sent-sources j w x e,
    times_sent-dests m (o, xs) k,
    λ (h : j ≡ d). missing_dest m (subst (λ i. Above i m) h a),
  )

  -- A round of `sendPackets`, on a box with ordered maps where each packet stands under its own
  -- source and sequence number, sends each packet that the box holds for a process to that process
  -- once, and nothing else.
  pub send_packets-holds :
      (o : OutBox)
      → IsTidy o.packets
      → IsKeyed o.packets
      → times_sent (send_packets o) ≡ (if holds o d s n then 1 else 0)
  unfolding send_packets holds
  send_packets-holds o t k = times_sent-dests o.packets t k
