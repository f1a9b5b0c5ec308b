-- ===== src/Queue.antt =====
-- template_cpp/src/include/thread_safe_queue.hpp: a bounded queue that threads share. A call holds
-- the mutex from its test to its return, so a call that gets through is one step; `none` is a call
-- that waits on its condition variable.
pub mod Fifo
pub mod Contents
use localized_causal_broadca.Prelude.{
  ℕ, ◌+◌, ◌-◌, ◌%◌, ◌≤◌, ◌<◌, ◌≡◌, Bool, true, false, List, [], ◌∷◌, ◌++◌, ◌==◌, if◌then◌else◌,
  word_size, length, Option, none, some,
}

-- The front of the queue is the head of the list.
pub record Queue {ℓ} (A : Type ℓ) : Type ℓ where
  pub curr_size : ℕ
  pub max_size : ℕ
  pub items : List A

-- where the constructor's call names no size
abbrev pub default_max_size : ℕ
default_max_size = 512

module _ {ℓ} {A : Type ℓ} where
  unfoldable pub empty : ℕ → Queue A
  empty max_size = record { curr_size = 0; max_size = max_size; items = [] }

  unfoldable pub get_size : Queue A → ℕ
  get_size q = q.curr_size

  unfoldable pub push : Queue A → A → Option (Queue A)
  push q a =
      if q.curr_size == q.max_size
      then none
      else some (record q { curr_size = (q.curr_size + 1) % word_size; items = q.items ++ a ∷ [] })

  -- front() and pop() of the std::queue; `none` here would be front() of an empty one
  take_front : Queue A → List A → Option (A × Queue A)
  take_front q [] = none
  take_front q (a ∷ rest) =
      some (a, record q { curr_size = (q.curr_size + (word_size - 1)) % word_size; items = rest })

  unfoldable pub pop : Queue A → Option (A × Queue A)
  unfolding take_front
  pop q = if q.curr_size == 0 then none else take_front q q.items
