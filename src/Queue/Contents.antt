-- ===== src/Queue/Contents.antt =====
-- What all elements of a queue have.
use localized_causal_broadca.Prelude.{◌≡◌, sym, subst, ◌∷◌, [], All, All-append, some}
use localized_causal_broadca.Queue.{Queue, push, pop}
use localized_causal_broadca.Queue.Fifo.{push-items, pop-items}

module _ {ℓ κ} {A : Type ℓ} (P : A → Type κ) (q r : Queue A) (a : A) where
  pub push-All : All P q.items → P a → push q a ≡ some r → All P r.items
  push-All h p e =
      subst (All P) (sym (push-items q r a e)) (All-append P q.items (a ∷ []) h (p, tt))

  pub pop-All : All P q.items → pop q ≡ some (a, r) → P a × All P r.items
  pop-All h e = subst (All P) (pop-items q r a e) h
