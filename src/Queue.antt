-- ===== src/Queue.antt =====
-- src/leo_lock_free_queue.h: `static_lock_free_queue<t, n>`, a ring of `n` slots with two free
-- running counters. A method returns the new queue beside its result; `none` is an access out of
-- range.
pub mod Valid
pub mod Fifo
pub mod Threads
mod Tests
use leo_net.Base.{
  ℕ, zero, suc, ◌+◌, ◌-◌, ◌%◌, ◌^◌, bit_and, Bool, true, false, not, Option, none, some,
}
use leo_net.Base.{List, ltb, leb, ◌==◌, if◌then◌else◌, ◌>>=◌, add32, sub32}
use leo_net.Base.Lists.{get_elem?, replicate}
use leo_net.Base.Memory.{store_elem}

-- `n` is the template's argument and `queue` has `n` slots.
pub record Queue (A : Type 0) : Type 0 where
  pub queue : List A
  pub push_index : ℕ
  pub pop_index : ℕ

module _ {A : Type 0} where
  -- `memset` fills every slot with the value of zero bytes.
  unfoldable pub init_queue : A → ℕ → Queue A
  init_queue zeroed n = record { queue = replicate n zeroed; push_index = 0; pop_index = 0 }

  unfoldable pub push_back : ℕ → Queue A → A → Option (Bool × Queue A)
  push_back n q x =
      if ltb (sub32 q.push_index q.pop_index) n
      then (do
        slots ← store_elem q.queue (bit_and q.push_index (sub32 n 1)) x
        some (
          true,
          record { queue = slots; push_index = add32 q.push_index 1; pop_index = q.pop_index },
        ))
      else some (false, q)

  -- The popped value goes through the reference parameter, which a failed call leaves alone.
  unfoldable pub pop_front : ℕ → Queue A → A → Option (Bool × A × Queue A)
  pop_front n q out =
      if not (q.push_index == q.pop_index)
      then (do
        x ← get_elem? q.queue (bit_and q.pop_index (sub32 n 1))
        some (
          true,
          x,
          record { queue = q.queue; push_index = q.push_index; pop_index = add32 q.pop_index 1 },
        ))
      else some (false, out, q)

  pub empty : Queue A → Queue A
  empty q = record q { push_index = 0; pop_index = 0 }

  pub is_empty : Queue A → Bool
  is_empty q = q.push_index == q.pop_index

  pub is_full : ℕ → Queue A → Bool
  is_full n q = leb n (sub32 q.push_index q.pop_index)
