-- ===== src/PerfectLink/Threads/Crash/Starvation.antt =====
-- The outbox is full of packets for one process (template_cpp/src/src/perfect_link.cpp and
-- outbox.cpp).
use localized_causal_broadca.Prelude.{ℕ, ◌+◌, ◌≡◌, refl, ap, List, ◌++◌, arith, none, All}
use localized_causal_broadca.OutBox.{Addressed, send_packets}
use localized_causal_broadca.OutBox.Contents.{Contents, send_packets-All}
use localized_causal_broadca.OutBox.Share.{share-total, share-Contents}
use localized_causal_broadca.PerfectLink.Threads.{Node, node, fill_outbox}
use localized_causal_broadca.PerfectLink.Threads.Crash.{
  IsFor, Steps, Blocked, Steps-Blocked, fill_outbox-full,
}
use localized_causal_broadca.PerfectLink.Threads.Crash.Share.{count_for, IsCounted, Steps-IsCounted}

module _ (d : ℕ) where
  -- The box is full, and all of its packets are for `d`.
  record Gathered (m : Node) : Type 0 where
    full : m.link.outbox.curr_size ≡ m.link.outbox.max_size
    contents : Contents (IsFor d) m.link.outbox

  counted-Gathered :
      (sent : List Addressed) (m : Node)
      → IsCounted d sent m
      → count_for d m.packets_to_send.items + 1000 ≡ count_for d sent
      → Gathered m
  counted-Gathered sent m h left =
      let below = share-total d m.link.outbox in
      record {
        full = omega (arith, h.counted, h.bound, h.sized, left, below);
        contents = share-Contents d m.link.outbox (omega (arith, h.counted, h.bound, left));
      }

  -- In any run of the threads of a link that starts with the counter of its box at 0, whatever is
  -- handed to `send` and whatever arrives, as long as no acknowledgement of the process `d` does:
  -- when a thousand of the packets handed over for `d` have been put into the box, then from there
  -- on, until an acknowledgement of `d` arrives, the thread that fills the box waits; every round
  -- of `sendPackets` sends the packets that it sent then, all of them to `d`; and the packets that
  -- wait for the box, for whatever process they are, go on waiting, in front of those that are
  -- handed over since. (Acknowledgements do not pass through the box. The packet that addPacket
  -- waits with counts as one that waits.)
  pub crash_starves :
      {m w : Node} {sent later : List Addressed} (id : ℕ)
      → Steps d (node id 0) m sent
      → count_for d m.packets_to_send.items + 1000 ≡ count_for d sent
      → Steps d m w later
      → (fill_outbox w ≡ none)
        × (send_packets w.link.outbox ≡ send_packets m.link.outbox)
        × All (IsFor d) (send_packets w.link.outbox)
        × (w.packets_to_send.items ≡ m.packets_to_send.items ++ later)
  crash_starves {m} {w} {sent} {later} id steps left more =
      let h = Steps-IsCounted d id refl steps in
      let g = counted-Gathered sent m h left in
      let start : Blocked d m.link.outbox m.packets_to_send.items m = record {
        boxed = refl;
        silent = h.silent;
        queued = refl;
      } in
      let after =
        Steps-Blocked d m.link.outbox m.packets_to_send.items g.full g.contents start more in
      (
        fill_outbox-full d w (rw after.boxed g.full),
        ap send_packets after.boxed,
        rw after.boxed (send_packets-All (IsFor d) m.link.outbox g.contents),
        after.queued,
      )
