-- ===== src/Program/Genuine.antt =====
-- The packets of a system that were broadcast, as its histories grow.
use localized_causal_broadca.Prelude.{
  ℕ, ◌≡◌, refl, sym, ap, ◌∙◌, subst, List, [], ◌∷◌, ◌++◌, append_assoc, arith, update, ◌==◌,
  Bool-cases, inl, inr,
}
use localized_causal_broadca.Packet.{Packet}
use localized_causal_broadca.UniformReliableBroadcast.Packets.{KeptByRename}
use localized_causal_broadca.CausalBroadcast.{Event, logs_broadcast, broadcasts, logs_delivered}
use localized_causal_broadca.CausalBroadcast.Invariant.{IsOfSystem}
use localized_causal_broadca.CausalBroadcast.Invariant.Shape.{Own, Shaped}
use localized_causal_broadca.CausalBroadcast.Histories.{Genuine, OccursAfter}

-- a packet of the system that its source has broadcast
abbrev pub Good : ℕ → (ℕ → List Event) → Packet → Type 0
Good n history q = Genuine history q × IsOfSystem n q

pub Good-rename : (n : ℕ) (history : ℕ → List Event) → KeptByRename (Good n history)
Good-rename n history q id ((sent, before, occurs, copied), good) = (
  (sent, before, occurs, ap (λ (r : Packet). record r { process_id = id }) copied),
  record { source = good.source; clock = good.clock; size = good.size },
)

-- What occurs in a history occurs in a longer one.
OccursAfter-update :
    (i j : ℕ) (more before : List Event) (e : Event) (history : ℕ → List Event)
    → OccursAfter before e (history j)
    → OccursAfter before e (update i (history i ++ more) history j)
unfolding update
OccursAfter-update i j more before e history (after, h) = elim (Bool-cases (j == i)) [
  | inl same ↦ (
    after ++ more,
    rw same (
        let at_i : i ≡ j = ground arith in
        ap (λ k. history k ++ more) at_i
        ∙ ap (λ es. es ++ more) h
        ∙ append_assoc before (e ∷ after) more),
  )
  | inr other ↦ (after, rw other h)
]

pub Good-update :
    (n i : ℕ) (more : List Event) (history : ℕ → List Event) (q : Packet)
    → Good n history q
    → Good n (update i (history i ++ more) history) q
Good-update n i more history q ((sent, before, occurs, copied), good) = (
  (
    sent,
    before,
    OccursAfter-update i q.source_id more before (broadcasts sent) history occurs,
    copied,
  ),
  good,
)

-- What a process broadcasts is good from then on.
pub Own-Good :
    (n i : ℕ) (history : ℕ → List Event) (before more : List Event)
    → history i ≡ before ++ more
    → Own (Shaped i n) more
    → Own (Good n history) more
Own-Good n i history before [] e h = tt
Own-Good n i history before (logs_broadcast q ∷ more) e h =
    Own-Good n i history (before ++ logs_broadcast q ∷ []) more
      (e ∙ sym (append_assoc before (logs_broadcast q ∷ []) more)) h
Own-Good n i history before (logs_delivered q ∷ more) e h =
    Own-Good n i history (before ++ logs_delivered q ∷ []) more
      (e ∙ sym (append_assoc before (logs_delivered q ∷ []) more)) h
Own-Good n i history before (broadcasts q ∷ more) e ((good, _, source, _), h) = (
  (
    (
      q,
      before,
      subst (λ j. OccursAfter before (broadcasts q) (history j)) (sym source) (more, e),
      refl,
    ),
    good,
  ),
  Own-Good n i history (before ++ broadcasts q ∷ []) more
      (e ∙ sym (append_assoc before (broadcasts q ∷ []) more)) h,
)
