-- ===== src/OutBox.antt =====
-- template_cpp/src/include/outbox.hpp and template_cpp/src/src/outbox.cpp: the packets that are
-- sent again and again until they are acknowledged. Each call holds the mutex; `none` is a call of
-- `addPacket` that waits on its condition variable. What the constructor leaves in `curr_size` is
-- an argument of `create`.
pub mod Contents
pub mod Size
pub mod Share
pub mod Sends
use localized_causal_broadca.Prelude.{
  ℕ, ◌+◌, ◌-◌, ◌%◌, ◌≡◌, Bool, true, false, List, [], ◌∷◌, ◌++◌, ◌==◌, if◌then◌else◌, word_size,
  map, Option, none, some,
}
use localized_causal_broadca.Containers.Map.{NumMap, at, put, has, remove}
use localized_causal_broadca.Packet.{Packet}

-- Packet_ProcId
pub record Addressed : Type 0 where
  pub packet : Packet
  pub dest_proc_id : ℕ

abbrev pub BySeq : Type 0
BySeq = NumMap Packet

abbrev pub BySource : Type 0
BySource = NumMap BySeq

pub record OutBox : Type 0 where
  pub curr_size : ℕ
  pub max_size : ℕ
  pub packets : NumMap BySource

unfoldable pub create : ℕ → OutBox
create indeterminate = record { curr_size = indeterminate; max_size = 1000; packets = [] }

-- packets[dest_id][source_id]
abbrev pub slot : OutBox → ℕ → ℕ → BySeq
slot o dest_id source_id = at [] source_id (at [] dest_id o.packets)

abbrev pub with_slot : OutBox → ℕ → ℕ → BySeq → NumMap BySource
with_slot o dest_id source_id s = put dest_id (put source_id s (at [] dest_id o.packets)) o.packets

-- the key's packet is in the box
unfoldable pub holds : OutBox → ℕ → ℕ → ℕ → Bool
holds o dest_id source_id seq_num = has seq_num (slot o dest_id source_id)

unfoldable pub add_packet : OutBox → Addressed → Option OutBox
add_packet o pack_and_dest =
    let dest_id = pack_and_dest.dest_proc_id in
    let source_id = pack_and_dest.packet.source_id in
    let seq_num = pack_and_dest.packet.packet_seq_num in
    if o.curr_size == o.max_size
    then none
    else some (record o {
      curr_size = (o.curr_size + 1) % word_size;
      packets =
          with_slot o dest_id source_id
            (put seq_num pack_and_dest.packet (slot o dest_id source_id));
    })

unfoldable pub remove_packet : OutBox → ℕ → ℕ → ℕ → OutBox × Bool
remove_packet o dest_id source_id seq_num =
    if has seq_num (slot o dest_id source_id)
    then (
      record o {
        curr_size = (o.curr_size + (word_size - 1)) % word_size;
        packets = with_slot o dest_id source_id (remove seq_num (slot o dest_id source_id));
      },
      true,
    )
    else (o, false)

-- The three loops of `sendPackets`: every packet with the destination that it is sent to, in the
-- order of the maps. An address is looked up by the destination.
send_seqs : ℕ → BySeq → List Addressed
send_seqs dest_id [] = []
send_seqs dest_id ((seq_num, p) ∷ m) =
    record { packet = p; dest_proc_id = dest_id } ∷ send_seqs dest_id m

send_sources : ℕ → BySource → List Addressed
unfolding send_seqs
send_sources dest_id [] = []
send_sources dest_id ((source_id, s) ∷ m) = send_seqs dest_id s ++ send_sources dest_id m

send_dests : NumMap BySource → List Addressed
unfolding send_sources
send_dests [] = []
send_dests ((dest_id, s) ∷ m) = send_sources dest_id s ++ send_dests m

unfoldable pub send_packets : OutBox → List Addressed
unfolding send_dests
send_packets o = send_dests o.packets
