-- ===== src/Program/System.antt =====
-- The processes of a system on a network are a system in the sense of the causal broadcast: what
-- the layers below it deliver was broadcast.
use mathlib.Core.List.{Memᴰ}
use localized_causal_broadca.Prelude.{
  ℕ, ◌<◌, ◌≡◌, sym, subst, some, List, [], ◌++◌, arith, length, word_size, ok, Ensures-ok, All,
  All-Memᴰ, All-append, All-map, update, update_self, update_all, ◌==◌, Bool-cases, inl, inr,
}
use localized_causal_broadca.Containers.Set.{NumSet}
use localized_causal_broadca.VectorClock.Access.{IsProcess}
use localized_causal_broadca.Packet.{Packet}
use localized_causal_broadca.OutBox.{Addressed}
use localized_causal_broadca.PerfectLink.Threads.{Node, listen}
use localized_causal_broadca.UniformReliableBroadcast.Packets.{first_section-kept}
use localized_causal_broadca.CausalBroadcast
use localized_causal_broadca.CausalBroadcast.{
  CausalBroadcast, Event, logs_broadcast, broadcasts, logs_delivered,
}
use localized_causal_broadca.CausalBroadcast.Steps
use localized_causal_broadca.CausalBroadcast.Steps.{Thread, start_thread}
use localized_causal_broadca.CausalBroadcast.Invariant.{IsOfSystem}
use localized_causal_broadca.CausalBroadcast.Invariant.Broadcasts.{create-Inv}
use localized_causal_broadca.CausalBroadcast.Invariant.Shape.{
  Own, Shaped, OwnOnly, start_thread-Shaped, Run-broadcasts-Shaped, urb_deliver-Own,
}
use localized_causal_broadca.CausalBroadcast.Histories.{System}
use localized_causal_broadca.Program.{
  Process, thread_of, process, Step, runs_thread, urb_pops, urb_delivers, beb_pops, beb_delivers,
  settles, begins_half, sends, fills, transmits, transmits_ack, pops, acknowledges, link_delivers,
  Run, begin, steps, arrives,
}
use localized_causal_broadca.Program.Projection.{Step-Run}
use localized_causal_broadca.Program.Carried.{Known, Carries, listen-Carries}
use localized_causal_broadca.Program.Carried.Steps.{Carries-map, Step-Carries, process-Carries}
use localized_causal_broadca.Program.Projection.{Step-Run}
use localized_causal_broadca.Program.Genuine.{Good, Good-rename, Good-update, Own-Good}

-- A system with these hosts, the messages of each process, the processes that affect it, and what
-- is left in the counter of its outbox.
module _ (hosts : List ℕ) (num_messages : ℕ → ℕ) (locality : ℕ → NumSet)
    (indeterminate : ℕ → ℕ) where
  abbrev first : ℕ → CausalBroadcast
  first i = CausalBroadcast.create i (num_messages i) hosts (locality i)

  abbrev pub start : ℕ → Process
  start i = process i (num_messages i) hosts (locality i) (indeterminate i)

  record Sound (all : ℕ → Process) (history : ℕ → List Event) (arrived : ℕ → List Packet)
      (wire : List Addressed) : Type 0 where
    each : (i : ℕ) → IsProcess (length hosts) i → Carries (Good (length hosts) history) i (all i)
    runs :
        (i : ℕ)
        → IsProcess (length hosts) i
        → Steps.Run (first i) (all i).causal_broadcast (all i).thread (arrived i) (history i)
    good : (i : ℕ) → IsProcess (length hosts) i → All (Good (length hosts) history) (arrived i)
    wired : All (Known (Good (length hosts) history) 0) wire

  start-Sound : length hosts < word_size → Sound start (λ i. []) (λ i. []) []
  unfolding process thread_of
  start-Sound small = record {
    each = λ i known.
        process-Carries (Good (length hosts) (λ j. [])) i (num_messages i) hosts (locality i)
          (indeterminate i);
    runs = λ i known.
        let (t, started, _) =
          start_thread-Shaped i (length hosts) (locality i) small known (first i)
            (create-Inv i (num_messages i) hosts (locality i)) in
        Steps.begin (subst (λ r. start_thread (first i) ≡ ok (thread_of r)) (sym started) started);
    good = λ i known. tt;
    wired = tt;
  }

  -- What a step broadcasts is a packet of the system.
  Step-Shaped :
      {p v : Process} {events more_events : List Event} {ps arrived : List Packet}
      {more : List Addressed} (i : ℕ)
      → length hosts < word_size
      → IsProcess (length hosts) i
      → Steps.Run (first i) p.causal_broadcast p.thread arrived events
      → All (IsOfSystem (length hosts)) arrived
      → Step p v more_events ps more
      → Own (Shaped i (length hosts)) more_events
  Step-Shaped i small known r good (runs_thread may step e) =
      Run-broadcasts-Shaped i (num_messages i) hosts (locality i) small known r good step
  Step-Shaped i small known r good
        (urb_delivers {p = p} {c = c} {events = events} {q = q} busy at step) =
      Ensures-ok (OwnOnly (Shaped i (length hosts))) (c, events)
        (urb_deliver-Own (Shaped i (length hosts)) p.causal_broadcast q) step
  Step-Shaped i small known r good (urb_pops free popped) = tt
  Step-Shaped i small known r good (beb_pops free settled popped) = tt
  Step-Shaped i small known r good (beb_delivers at free step e) = tt
  Step-Shaped i small known r good (settles at e) = tt
  Step-Shaped i small known r good (begins_half free e) = tt
  Step-Shaped i small known r good (sends at e) = tt
  Step-Shaped i small known r good (fills e) = tt
  Step-Shaped i small known r good transmits = tt
  Step-Shaped i small known r good (transmits_ack e) = tt
  Step-Shaped i small known r good (pops at e) = tt
  Step-Shaped i small known r good (acknowledges at e) = tt
  Step-Shaped i small known r good (link_delivers at e) = tt

  -- Runs with one of them extended.
  update-Runs :
      (all : ℕ → Process) (history : ℕ → List Event) (arrived : ℕ → List Packet) (v : Process)
      (ps : List Packet) (events : List Event) (i j : ℕ)
      → Steps.Run (first i) v.causal_broadcast v.thread ps events
      → Steps.Run (first j) (all j).causal_broadcast (all j).thread (arrived j) (history j)
      → Steps.Run
          (first j)
          (update i v all j).causal_broadcast
          (update i v all j).thread
          (update i ps arrived j)
          (update i events history j)
  unfolding update
  update-Runs all history arrived v ps events i j changed kept = elim (Bool-cases (j == i)) [
    | inl same ↦ rw same (
        let at_i : i ≡ j = ground arith in
        subst (λ k. Steps.Run (first k) v.causal_broadcast v.thread ps events) at_i changed)
    | inr other ↦ rw other kept
  ]

  -- a step of process `i`, whose packets are of the system
  Step-Sound :
      {all : ℕ → Process} {history : ℕ → List Event} {arrived : ℕ → List Packet}
      {wire more : List Addressed} {v : Process} {events : List Event} {ps : List Packet} (i : ℕ)
      → length hosts < word_size
      → Sound all history arrived wire
      → IsProcess (length hosts) i
      → Step (all i) v events ps more
      → Sound
          (update i v all)
          (update i (history i ++ events) history)
          (update i (arrived i ++ ps) arrived)
          (more ++ wire)
  Step-Sound {all} {history} {arrived} {wire} {more} {v} {events} {ps} i small sound known step =
      let n = length hosts in
      let history' = update i (history i ++ events) history in
      let later = Good-update n i events history in
      let run = sound.runs i known in
      let of_system = All-map (λ q g. g.1) (arrived i) (sound.good i known) in
      let own =
        Own-Good n i history' (history i) events (update_self i (history i ++ events) history)
          (Step-Shaped i small known run of_system step) in
      let carried =
        Carries-map (Good n history) (Good n history') i later (all i) (sound.each i known) in
      let (next, handed, sent) =
        Step-Carries (Good n history') i
          (λ u q r actions section same good.
            first_section-kept (Good n history') (Good-rename n history') (all i).urb u q r actions
              good section)
          step carried own in
      let others : (j : ℕ) → IsProcess n j → All (Good n history') (arrived j) =
        λ j known'. All-map later (arrived j) (sound.good j known') in
      record {
        each = λ j known'.
            update_all (λ k p. IsProcess n k → Carries (Good n history') k p) i v all j (λ k. next)
              (λ k. Carries-map (Good n history) (Good n history') j later (all j) (sound.each j k))
              known';
        runs = λ j known'.
            update-Runs all history arrived v (arrived i ++ ps) (history i ++ events) i j
              (Step-Run step run) (sound.runs j known');
        good = λ j known'.
            update_all (λ k ps. IsProcess n k → All (Good n history') ps) i (arrived i ++ ps)
              arrived j (λ k. All-append (Good n history') (arrived i) ps (others i known) handed)
              (others j) known';
        wired =
            All-append (Known (Good n history') 0) more wire sent
              (All-map (λ a g m. later a.packet (g m)) wire sound.wired);
      }

  -- A datagram that arrives leaves the causal broadcast.
  listen-Sound :
      {all : ℕ → Process} {history : ℕ → List Event} {arrived : ℕ → List Packet}
      {wire : List Addressed} {l : Node} (a : Addressed)
      → Sound all history arrived wire
      → IsProcess (length hosts) a.dest_proc_id
      → Memᴰ a wire
      → listen (all a.dest_proc_id).link a.packet ≡ some l
      → Sound
          (update a.dest_proc_id (record (all a.dest_proc_id) { link = l }) all)
          history
          arrived
          wire
  listen-Sound {all} {history} {arrived} {wire} {l} a sound known sent e =
      let n = length hosts in
      let i = a.dest_proc_id in
      let v = record (all i) { link = l } in
      let next =
        listen-Carries (Good n history) i (all i) l a.packet (sound.each i known)
          (All-Memᴰ (Known (Good n history) 0) sent sound.wired) e in
      record {
        each = λ j known'.
            update_all (λ k p. IsProcess n k → Carries (Good n history) k p) i v all j (λ k. next)
              (sound.each j) known';
        runs = λ j known'.
            update_all
              (λ k p. Steps.Run (first k) p.causal_broadcast p.thread (arrived k) (history k)) i v
              all j (sound.runs i known) (sound.runs j known');
        good = sound.good;
        wired = sound.wired;
      }

  Run-Sound :
      {all : ℕ → Process} {history : ℕ → List Event} {arrived : ℕ → List Packet}
      {wire : List Addressed}
      → length hosts < word_size
      → Run (length hosts) start all history arrived wire
      → Sound all history arrived wire
  Run-Sound small begin = start-Sound small
  Run-Sound small (steps i r known step) = Step-Sound i small (Run-Sound small r) known step
  Run-Sound small (arrives a r known sent e) = listen-Sound a (Run-Sound small r) known sent e

  -- What a step behind a run broadcasts is in the name of its process.
  pub Run-Shaped :
      {all : ℕ → Process} {history : ℕ → List Event} {arrived : ℕ → List Packet}
      {wire more : List Addressed} {v : Process} {events : List Event} {ps : List Packet}
      → length hosts < word_size
      → Run (length hosts) start all history arrived wire
      → (i : ℕ) → IsProcess (length hosts) i
      → Step (all i) v events ps more
      → Own (Shaped i (length hosts)) events
  Run-Shaped {arrived = arrived} small r i known step =
      let sound = Run-Sound small r in
      let of_system = All-map (λ q g. g.1) (arrived i) (sound.good i known) in
      Step-Shaped i small known (sound.runs i known) of_system step

  -- the causal broadcast of each process
  pub Run-runs :
      {all : ℕ → Process} {history : ℕ → List Event} {arrived : ℕ → List Packet}
      {wire : List Addressed}
      → length hosts < word_size
      → Run (length hosts) start all history arrived wire
      → (i : ℕ) → IsProcess (length hosts) i
      → Steps.Run
          (CausalBroadcast.create i (num_messages i) hosts (locality i))
          (all i).causal_broadcast
          (all i).thread
          (arrived i)
          (history i)
  Run-runs small r = (Run-Sound small r).runs

  -- In any run of a system of processes with all of their layers, whose hosts a size_t can count
  -- and at each of which fewer than 2 ^ 64 events happened: the events are those of a system of
  -- causal broadcasts above a layer that delivers only packets of the system that were broadcast.
  pub Run-System :
      {all : ℕ → Process} {history : ℕ → List Event} {arrived : ℕ → List Packet}
      {wire : List Addressed}
      → length hosts < word_size
      → Run (length hosts) start all history arrived wire
      → ((i : ℕ) → IsProcess (length hosts) i → length (history i) < word_size)
      → System hosts num_messages locality history
  Run-System {all} {history} {arrived} small r short =
      let sound = Run-Sound small r in
      record {
        counted = small;
        state = λ i. (all i).causal_broadcast;
        thread = λ i. (all i).thread;
        arrived = arrived;
        run = sound.runs;
        genuine = λ i known. All-map (λ q g. g.0) (arrived i) (sound.good i known);
        of_system = λ i known. All-map (λ q g. g.1) (arrived i) (sound.good i known);
        short = short;
      }
