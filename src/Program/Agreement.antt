-- ===== src/Program/Agreement.antt =====
-- Uniform reliable broadcast in a system of processes on a network: who knows a packet that one of
-- them has delivered.
pub mod Steps
pub mod Logged
use mathlib.Core.Option
use mathlib.Core.List.{Memᴰ}
use localized_causal_broadca.Prelude.{
  ℕ, ◌/◌, ◌<◌, ◌≡◌, refl, sym, ap, ◌∙◌, subst, true, false, List, [], ◌∷◌, ◌++◌, arith, length,
  word_size, Option, none, some, ok, Ensures-ok, All, All-append, All-map, All-Memᴰ, bind-some,
  update, update_self, update_all,
}
use localized_causal_broadca.Containers.Set.{NumSet, member, size, IsSorted}
use localized_causal_broadca.VectorClock.Access.{IsProcess}
use localized_causal_broadca.Packet.{Packet}
use localized_causal_broadca.OutBox.{Addressed}
use localized_causal_broadca.PerfectLink.Threads.{Node, listen}
use localized_causal_broadca.UniformReliableBroadcast
use localized_causal_broadca.UniformReliableBroadcast.{
  Urb, Action, is_delivered, first_section, second_section,
}
use localized_causal_broadca.UniformReliableBroadcast.Packets.{OfAction}
use localized_causal_broadca.UniformReliableBroadcast.Sections
use localized_causal_broadca.UniformReliableBroadcast.Uniform.{is_known}
use localized_causal_broadca.UniformReliableBroadcast.Majority.{Run-majority}
use localized_causal_broadca.UniformReliableBroadcast.Known.{
  Knows, Relayed, is_known-Stable, first_section-Relayed, heard_from-All,
}
use localized_causal_broadca.CausalBroadcast
use localized_causal_broadca.CausalBroadcast.{
  CausalBroadcast, Event, logs_broadcast, broadcasts, logs_delivered, urb_deliver,
}
use localized_causal_broadca.CausalBroadcast.Steps.{Thread}
use localized_causal_broadca.CausalBroadcast.Invariant.Shape.{
  Own, OwnOnly, Own-both, Shaped, urb_deliver-Own,
}
use localized_causal_broadca.Program.{
  Process, process, hand_over, broadcast_all, Step, runs_thread, urb_pops, urb_delivers, beb_pops,
  beb_delivers, settles, begins_half, sends, fills, transmits, transmits_ack, pops, acknowledges,
  link_delivers, Run, begin, steps, arrives,
}
use localized_causal_broadca.Program.Carried.{
  Known, HeldHas, Carries, hand_over-urb, hand_over-held, listen-Carries,
}
use localized_causal_broadca.Program.Carried.Steps.{
  Forwards, Carries-map, Step-Carries, process-Carries,
}
use localized_causal_broadca.Program.System.{start, Run-Shaped}
use localized_causal_broadca.Program.Agreement.Steps.{
  Step-stable, Step-Knows, Urbed, Step-Urbed, Urbed-map,
}

-- Process `x` of the system knows the packet `k` of `s`.
abbrev pub KnownAt : ℕ → (ℕ → Process) → ℕ → ℕ → ℕ → Type 0
KnownAt n all x s k = IsProcess n x × (is_known s k (all x).urb ≡ true)

-- The process that a packet comes from knows it.
abbrev Held : ℕ → (ℕ → Process) → Packet → Type 0
Held n all q = KnownAt n all q.process_id q.source_id q.packet_seq_num

-- a step of process `i`
module _ (n i : ℕ) (all : ℕ → Process) (v : Process) (known : IsProcess n i) where
  Held-later :
      ((s k : ℕ) → is_known s k (all i).urb ≡ true → is_known s k v.urb ≡ true)
      → (q : Packet) → Held n all q
      → Held n (update i v all) q
  Held-later keeps q (sender, h) =
      let s = q.source_id in
      let k = q.packet_seq_num in
      (
        sender,
        update_all (λ j (p : Process). is_known s k (all j).urb ≡ true → is_known s k p.urb ≡ true)
            i v all q.process_id (keeps s k) (λ e. e) h,
      )

  Relayed-Held : (q : Packet) → Relayed i v.urb q → Held n (update i v all) q
  Relayed-Held q (sender, h) =
      subst (λ j. KnownAt n (update i v all) j q.source_id q.packet_seq_num) (sym sender)
        (known, subst (λ (p : Process). Knows p.urb q) (sym (update_self i v all)) h)

  Held-Forwards : (all i).urb.process_id ≡ i → Forwards (Held n (update i v all)) i (all i) v
  Held-Forwards self u q r actions section same h =
      first_section-Relayed (Held n (update i v all)) i (all i).urb u q r actions self section h
        (λ relayed. Relayed-Held r (subst (λ w. Relayed i w r) (sym same) relayed))

-- A system with these hosts, the messages of each process, the processes that affect it, and what
-- is left in the counter of its outbox.
module _ (hosts : List ℕ) (num_messages : ℕ → ℕ) (locality : ℕ → NumSet)
    (indeterminate : ℕ → ℕ) where
  abbrev HeldIn : (ℕ → Process) → Packet → Type 0
  HeldIn = Held (length hosts)

  record Agreed (all : ℕ → Process) (wire : List Addressed) : Type 0 where
    each : (i : ℕ) → IsProcess (length hosts) i → Carries (HeldIn all) i (all i)
    urbs : (i : ℕ) → IsProcess (length hosts) i → Urbed (HeldIn all) i (length hosts) (all i)
    wired : All (Known (HeldIn all) 0) wire

  start-Agreed : Agreed (start hosts num_messages locality indeterminate) []
  unfolding process
  start-Agreed = record {
    each = λ i known.
        process-Carries (HeldIn (start hosts num_messages locality indeterminate)) i
          (num_messages i) hosts (locality i) (indeterminate i);
    urbs = λ i known. record {
      self = unfold UniformReliableBroadcast.start in refl;
      arrivals = [];
      trace = [];
      run = Sections.start;
      from = tt;
    };
    wired = tt;
  }

  Step-Agreed :
      {all : ℕ → Process} {wire more : List Addressed} {v : Process} {events : List Event}
      {ps : List Packet} (i : ℕ)
      → IsProcess (length hosts) i
      → Own (Shaped i (length hosts)) events
      → Step (all i) v events ps more
      → Agreed all wire
      → Agreed (update i v all) (more ++ wire)
  Step-Agreed {all} {wire} {more} {v} {events} {ps} i known shaped step h =
      let n = length hosts in
      let held = Held n (update i v all) in
      let later =
        Held-later n i all v known
          (λ s k. Step-stable (λ u. is_known s k u ≡ true) (is_known-Stable s k) step) in
      let urb = h.urbs i known in
      let own =
        Own-both (Shaped i n) (Knows v.urb) held
          (λ q (_, _, _, sender) knows. Relayed-Held n i all v known q (sender, knows)) events
          shaped (Step-Knows step) in
      let (next, _, sent) =
        Step-Carries held i (Held-Forwards n i all v known urb.self) step
          (Carries-map (Held n all) held i later (all i) (h.each i known)) own in
      record {
        each = λ j known'.
            update_all (λ k p. IsProcess n k → Carries held k p) i v all j (λ k. next)
              (λ k. Carries-map (Held n all) held j later (all j) (h.each j k)) known';
        urbs = λ j known'.
            update_all (λ k p. IsProcess n k → Urbed held k n p) i v all j
              (λ k.
                Urbed-map (Held n all) held i n later v
                  (Step-Urbed (Held n all) i n step (h.each i known) urb))
              (λ k. Urbed-map (Held n all) held j n later (all j) (h.urbs j k)) known';
        wired =
            All-append (Known held 0) more wire sent
              (All-map (λ a g m. later a.packet (g m)) wire h.wired);
      }

  listen-Agreed :
      {all : ℕ → Process} {wire : List Addressed} {l : Node} (a : Addressed)
      → Agreed all wire
      → IsProcess (length hosts) a.dest_proc_id
      → Memᴰ a wire
      → listen (all a.dest_proc_id).link a.packet ≡ some l
      → Agreed (update a.dest_proc_id (record (all a.dest_proc_id) { link = l }) all) wire
  listen-Agreed {all} {wire} {l} a h known sent e =
      let n = length hosts in
      let i = a.dest_proc_id in
      let v = record (all i) { link = l } in
      let held = Held n (update i v all) in
      let later = Held-later n i all v known (λ s k same. same) in
      let next =
        listen-Carries (Held n all) i (all i) l a.packet (h.each i known)
          (All-Memᴰ (Known (Held n all) 0) sent h.wired) e in
      let urb = h.urbs i known in
      let heard : Urbed (Held n all) i n v = record {
        self = urb.self;
        arrivals = urb.arrivals;
        trace = urb.trace;
        run = urb.run;
        from = urb.from;
      } in
      record {
        each = λ j known'.
            update_all (λ k p. IsProcess n k → Carries held k p) i v all j
              (λ k. Carries-map (Held n all) held i later v next)
              (λ k. Carries-map (Held n all) held j later (all j) (h.each j k)) known';
        urbs = λ j known'.
            update_all (λ k p. IsProcess n k → Urbed held k n p) i v all j
              (λ k. Urbed-map (Held n all) held i n later v heard)
              (λ k. Urbed-map (Held n all) held j n later (all j) (h.urbs j k)) known';
        wired = All-map (λ b g m. later b.packet (g m)) wire h.wired;
      }

  Run-Agreed :
      {all : ℕ → Process} {history : ℕ → List Event} {arrived : ℕ → List Packet}
      {wire : List Addressed}
      → length hosts < word_size
      → Run
          (length hosts)
          (start hosts num_messages locality indeterminate)
          all
          history
          arrived
          wire
      → Agreed all wire
  Run-Agreed small begin = start-Agreed
  Run-Agreed small (steps i r known step) =
      Step-Agreed i known
        (Run-Shaped hosts num_messages locality indeterminate small r i known step) step
        (Run-Agreed small r)
  Run-Agreed small (arrives a r known sent e) = listen-Agreed a (Run-Agreed small r) known sent e

  -- In any run of a system of processes with all of their layers, on a network that loses, delays
  -- and repeats datagrams, where a size_t can count the hosts: if the uniform reliable broadcast of
  -- one process has delivered a packet, then there are more than half of the processes that know
  -- it: each of them holds it as pending, or has delivered it.
  pub Run-agreement :
      {all : ℕ → Process} {history : ℕ → List Event} {arrived : ℕ → List Packet}
      {wire : List Addressed} (i s k : ℕ)
      → length hosts < word_size
      → Run
          (length hosts)
          (start hosts num_messages locality indeterminate)
          all
          history
          arrived
          wire
      → IsProcess (length hosts) i
      → is_delivered (all i).urb s k ≡ true
      → (senders : NumSet) × IsSorted senders
        × (length hosts / 2 < size senders)
        × ((x : ℕ)
            → member x senders ≡ true
            → IsProcess (length hosts) x × (is_known s k (all x).urb ≡ true))
  Run-agreement {all} i s k small r known delivered =
      let urb = (Run-Agreed small r).urbs i known in
      let (senders, sorted, most, heard) = Run-majority s k i (length hosts) urb.run delivered in
      (
        senders,
        sorted,
        most,
        λ x m. heard_from-All (KnownAt (length hosts) all) s k x urb.arrivals urb.from (heard x m),
      )
