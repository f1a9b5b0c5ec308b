-- ===== src/CausalBroadcast/Liveness.antt =====
-- What `URBDeliver` brings to an end, and what it leaves.
use localized_causal_broadca.Prelude.{
  ℕ, ◌<◌, ◌≡◌, ◌≢◌, refl, ◌∙◌, ap, subst, true, List, [], ◌++◌, if◌then◌else◌, word_size, none,
  length, ok, >>=-eq-ok, leb, All,
}
use localized_causal_broadca.Containers.Set.{NumSet}
use localized_causal_broadca.VectorClock.Access.{IsProcess}
use localized_causal_broadca.Packet.{Packet}
use localized_causal_broadca.CausalBroadcast.{
  CausalBroadcast, Event, create, next_of, pending_of, ready, urb_deliver,
}
use localized_causal_broadca.CausalBroadcast.Steps.{
  Thread, top, finished, start_thread, thread_step, new_packet, Run, begin, send, receive,
}
use localized_causal_broadca.CausalBroadcast.Invariant.{IsOfSystem}
use localized_causal_broadca.CausalBroadcast.Invariant.Deliveries.{urb_deliver_lem}
use localized_causal_broadca.CausalBroadcast.Invariant.Broadcasts.{Run-create, create-may}

-- In any run from the start, `URBDeliver` of a packet of the system comes to an end with no failed
-- assertion, and it stops because the next packet of the source is missing or asks for deliveries
-- that are still to come.
pub urb_deliver-ends :
    (id num_messages : ℕ) (hosts : List ℕ) (locality : NumSet) {c : CausalBroadcast} {t : Thread}
    {ps : List Packet} {es : List Event} (p : Packet)
    → length hosts < word_size
    → IsProcess (length hosts) id
    → Run (create id num_messages hosts locality) c t ps es
    → All (IsOfSystem (length hosts)) ps
    → IsOfSystem (length hosts) p
    → (d : CausalBroadcast) × (more : List Event) × (urb_deliver c p ≡ ok (d, more))
      × (ready d p.source_id ≡ ok none)
urb_deliver-ends id num_messages hosts locality {c = c} {es = es} p small known r good last =
    let (inv, _) = Run-create id num_messages hosts locality small known r good in
    let (d, more, done, _, _, stop, _) =
      urb_deliver_lem id (length hosts) locality small c es p inv last in
    (d, more, done, stop)

-- `URBDeliver` looks at the source of its packet alone: in any run from the start, the packets of
-- every other source that wait, and the number awaited of it, stay as they were, also where what
-- has just been delivered was all that such a packet waited for.
pub urb_deliver-leaves_others :
    (id num_messages : ℕ) (hosts : List ℕ) (locality : NumSet) {c d : CausalBroadcast} {t : Thread}
    {ps : List Packet} {es more : List Event} (p : Packet) (other : ℕ)
    → length hosts < word_size
    → IsProcess (length hosts) id
    → Run (create id num_messages hosts locality) c t ps es
    → All (IsOfSystem (length hosts)) ps
    → IsOfSystem (length hosts) p
    → p.source_id ≢ other
    → urb_deliver c p ≡ ok (d, more)
    → (pending_of d other ≡ pending_of c other) × (next_of d other ≡ next_of c other)
urb_deliver-leaves_others id num_messages hosts locality {c = c} {d = d} {es = es} p other small
      known r good last differs h =
    let (inv, _) = Run-create id num_messages hosts locality small known r good in
    let (e, _, done, _, _, _, same) =
      urb_deliver_lem id (length hosts) locality small c es p inv last in
    let same_state : e ≡ d = cc in
    subst (λ f. (pending_of f other ≡ pending_of c other) × (next_of f other ≡ next_of c other))
      same_state (same other differs)

start_silent :
    (id : ℕ) (hosts : List ℕ) (locality : NumSet) (t : Thread)
    → start_thread (create id 0 hosts locality) ≡ ok t
    → t ≡ finished
unfolding start_thread create
start_silent id hosts locality t h =
    let (p, made, rest) =
      >>=-eq-ok
        (λ p. ok (if leb 1 (create id 0 hosts locality).num_messages then top 1 p else finished)) _
        (new_packet (create id 0 hosts locality)) h in
    cc

step_finished : (c : CausalBroadcast) → thread_step c finished ≡ ok (c, finished, [])
unfolding thread_step
step_finished c = refl

append_nils {ℓ} : {A : Type ℓ} (xs ys : List A) → xs ≡ [] → ys ≡ [] → xs ++ ys ≡ []
append_nils xs ys e f = rw (e, f)

-- A process that has no message of its own to broadcast accepts no packet of the others: in any run
-- from its start nothing has arrived at it and nothing has happened, as `can_broadcast`, which
-- `URBDeliver` waits to be false, is true from the start on.
pub silent_without_messages :
    (id : ℕ) (hosts : List ℕ) (locality : NumSet) {c : CausalBroadcast} {t : Thread}
    {ps : List Packet} {es : List Event}
    → Run (create id 0 hosts locality) c t ps es
    → (c ≡ create id 0 hosts locality) × (t ≡ finished) × (ps ≡ []) × (es ≡ [])
silent_without_messages id hosts locality (begin {t = t} h) =
    (refl, start_silent id hosts locality t h, refl, refl)
silent_without_messages id hosts locality
      (send {d = d} {e = e} {t = t} {u = u} {events = events} {more = more} r may h) =
    let (same, done, nobody, nothing) = silent_without_messages id hosts locality r in
    let idle : thread_step d t ≡ ok (d, finished, []) = rw done (step_finished d) in
    let stays : e ≡ d = cc in
    let ended : u ≡ finished = cc in
    let quiet : more ≡ [] = cc in
    (stays ∙ same, ended, nobody, append_nils events more nothing quiet)
silent_without_messages id hosts locality (receive {d = d} p r busy h) =
    let (same, _, _, _) = silent_without_messages id hosts locality r in
    let may : d.can_broadcast ≡ true =
      ap (λ u. u.can_broadcast) same ∙ create-may id 0 hosts locality in
    cc
