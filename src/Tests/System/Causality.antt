-- ===== src/Tests/System/Causality.antt =====
-- The causal order of the system's deliveries.
use localized_causal_broadca.Prelude.{
  ℕ, ◌≡◌, refl, false, List, [], ◌∷◌, arith, ◌==◌, if◌then◌else◌, length, Bool-cases, inl, inr,
  subst, All, word_size, ◌<◌,
}
use localized_causal_broadca.Containers.Set.{NumSet, member}
use localized_causal_broadca.Packet.{Packet}
use localized_causal_broadca.CausalBroadcast.{
  CausalBroadcast, Event, logs_broadcast, broadcasts, logs_delivered, create,
}
use localized_causal_broadca.VectorClock.Access.{IsProcess}
use localized_causal_broadca.CausalBroadcast.Invariant.Broadcasts.{Run-silent}
use localized_causal_broadca.CausalBroadcast.Invariant.{IsOfSystem}
use localized_causal_broadca.CausalBroadcast.Dependencies.{times_delivered}
use localized_causal_broadca.CausalBroadcast.Histories.{System, Genuine, Precedes, affects}
use localized_causal_broadca.CausalBroadcast.Causality.{delivers_causally}
use localized_causal_broadca.CausalBroadcast.Steps.{finished, Run}
use localized_causal_broadca.Tests.System.{
  hosts, clock, packet, start_of_2, sent, from_2, run_of_2, first_of_1, second_of_1, done_1,
  history_1, run_of_1, history_2, three_3, before_3, history_3, run_of_3,
}

-- what the three processes have, and what all others have
abbrev each {ℓ} : {A : Type ℓ} → A → A → A → A → ℕ → A
each a b c others id = if id == 1 then a else if id == 2 then b else if id == 3 then c else others

by_process {ℓ} :
    (P : ℕ → Type ℓ)
    → P 1
    → P 2
    → P 3
    → ((id : ℕ) → (id == 1) ≡ false → (id == 2) ≡ false → (id == 3) ≡ false → P id)
    → (id : ℕ) → P id
by_process P p q r others id = elim (Bool-cases (id == 1)) [
  | inl e ↦ subst P (let same : 1 ≡ id = ground arith in same) p
  | inr e ↦ elim (Bool-cases (id == 2)) [
    | inl f ↦ subst P (let same : 2 ≡ id = ground arith in same) q
    | inr f ↦ elim (Bool-cases (id == 3)) [
      | inl g ↦ subst P (let same : 3 ≡ id = ground arith in same) r
      | inr g ↦ others id e f g
    ]
  ]
]

abbrev num_messages : ℕ → ℕ
num_messages = each 2 1 1 0

abbrev locality : ℕ → NumSet
locality = each (2 ∷ []) [] [] []

abbrev history : ℕ → List Event
history = each history_1 history_2 history_3 []

abbrev state : ℕ → CausalBroadcast
state id = each done_1 (sent start_of_2) three_3 (create id 0 hosts []) id

abbrev arrived : ℕ → List Packet
arrived = each (from_2 ∷ first_of_1 ∷ []) [] (from_2 ∷ first_of_1 ∷ second_of_1 ∷ []) []

runs :
    (id : ℕ)
    → IsProcess 2036 id
    → Run
        (create id (num_messages id) hosts (locality id))
        (state id)
        finished
        (arrived id)
        (history id)
runs =
    by_process
      (λ id.
        IsProcess 2036 id
        → Run (create id (num_messages id) hosts (locality id)) (state id) finished (arrived id)
            (history id))
      (λ _. run_of_1) (λ _. run_of_2) (λ _. run_of_3)
      (λ id a b c known. rw (a, b, c) (Run-silent id hosts [] (omega arith) known))

from_2-Genuine : Genuine history from_2
from_2-Genuine = (from_2, (logs_broadcast from_2 ∷ []), ([], refl), refl)

first_of_1-Genuine : Genuine history first_of_1
first_of_1-Genuine = (
  first_of_1,
  (logs_broadcast first_of_1 ∷ []),
  (
    logs_delivered from_2
        ∷ logs_delivered first_of_1
        ∷ logs_broadcast second_of_1
        ∷ broadcasts second_of_1
        ∷ [],
    refl,
  ),
  refl,
)

abbrev before_second : List Event
before_second =
    logs_broadcast first_of_1
    ∷ broadcasts first_of_1
    ∷ logs_delivered from_2
    ∷ logs_delivered first_of_1
    ∷ logs_broadcast second_of_1
    ∷ []

second_of_1-Genuine : Genuine history second_of_1
second_of_1-Genuine = (second_of_1, before_second, ([], refl), refl)

packet-IsOfSystem :
    (id seq_num a b i : ℕ) → IsProcess 2036 id → IsOfSystem 2036 (packet id seq_num (clock a b) i)
packet-IsOfSystem id seq_num a b i known = record {
  source = known;
  clock = record { sized = refl };
  size = refl;
}

system : System hosts num_messages locality history
system = record {
  counted = omega arith;
  state = state;
  thread = λ id. finished;
  arrived = arrived;
  run = runs;
  genuine =
      by_process (λ id. IsProcess 2036 id → All (Genuine history) (arrived id))
        (λ _. (from_2-Genuine, (first_of_1-Genuine, tt))) (λ _. tt)
        (λ _. (from_2-Genuine, (first_of_1-Genuine, (second_of_1-Genuine, tt))))
        (λ id a b c known. rw (a, b, c) tt);
  of_system =
      let at_1 = packet-IsOfSystem 1 0 0 0 1 (omega arith) in
      let at_2 = packet-IsOfSystem 2 0 0 0 1 (omega arith) in
      let last = packet-IsOfSystem 1 1 1 1 2 (omega arith) in
      by_process (λ id. IsProcess 2036 id → All (IsOfSystem 2036) (arrived id))
        (λ _. (at_2, (at_1, tt))) (λ _. tt) (λ _. (at_2, (at_1, (last, tt))))
        (λ id a b c known. rw (a, b, c) tt);
  short =
      by_process (λ id. IsProcess 2036 id → length (history id) < word_size) (λ _. omega arith)
        (λ _. omega arith) (λ _. omega arith) (λ id a b c known. rw (a, b, c) (omega arith));
}

-- Process 1 delivered the packet of process 2 before it broadcast its second.
second_depends : Precedes 2036 locality history 2 0 1 1
unfolding member
second_depends =
    affects (logs_broadcast first_of_1 ∷ broadcasts first_of_1 ∷ [])
      (logs_delivered first_of_1 ∷ logs_broadcast second_of_1 ∷ []) from_2 second_of_1 refl refl
      refl (omega arith) (omega arith) (omega arith) refl ([], refl)

delivers_causally_example : times_delivered 2 0 before_3 ≡ 1
delivers_causally_example =
    delivers_causally system 3 before_3 second_of_1 second_depends (omega arith) ([], refl) refl
      refl
