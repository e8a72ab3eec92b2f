-- ===== src/Queue/Tests.antt =====
-- Runs of the `static_lock_free_queue` model, and its theorems at concrete queues.
use leo_net.Base.{ℕ, ◌-◌, ◌^◌, ◌≤◌, ◌<◌, ◌≡◌, refl, true, false, some, [], ◌∷◌, ◌++◌, arith}
use leo_net.Base.Lists.{length}
use leo_net.Base.Memory.{store_elem}
use leo_net.Queue.{Queue, init_queue, push_back, pop_front}
use leo_net.Queue.Valid.{IsValid, contents, push_at, pop_at}
use leo_net.Queue.Fifo.{unqueue, push_back_lem, pop_front_lem}
use leo_net.Queue.Threads.{
  System, Producer, Consumer, start, push_test, push_store, push_count, pop_test, pop_load, Reach,
  here, next,
}
use leo_net.Queue.Threads.Safe.{threads_fifo}

-- One value, across the wrap of the push counter.
abbrev turning : Queue ℕ
turning = record { queue = 5 ∷ 9 ∷ []; push_index = 0; pop_index = 2 ^ 32 - 1 }

turning-IsValid : IsValid 2 turning
turning-IsValid = record {
  exponent = 1;
  power = refl;
  small = omega arith;
  slots = refl;
  push_word = omega arith;
  pop_word = omega arith;
  held = omega arith;
}

contents-turning : contents 0 2 turning ≡ 9 ∷ []
unfolding contents
contents-turning = refl

push_back_lem_example :
    (q' : Queue ℕ) × (push_back 2 turning 7 ≡ some (true, q'))
    × IsValid 2 q'
    × (contents 0 2 q' ≡ contents 0 2 turning ++ (7 ∷ []))
    × (true ≡ false → q' ≡ turning)
unfolding contents
push_back_lem_example = push_back_lem 0 turning-IsValid 7

pop_front_lem_example :
    (q' : Queue ℕ) × (pop_front 2 turning 0
      ≡ some ((unqueue 0 (contents 0 2 turning)).0, (unqueue 0 (contents 0 2 turning)).1, q'))
    × IsValid 2 q'
    × (contents 0 2 q' ≡ (unqueue 0 (contents 0 2 turning)).2)
    × (contents 0 2 turning ≡ [] → q' ≡ turning)
pop_front_lem_example = pop_front_lem 0 turning-IsValid 0

-- A push that is still to move its counter while a pop finds the queue empty would be no step; here
-- the push is through and the pop has loaded its value.
abbrev started : System ℕ
started = start 0 2

abbrev midway : System ℕ
midway = record {
  queue = record { queue = 7 ∷ 0 ∷ []; push_index = 1; pop_index = 0 };
  producer = Producer.tested 8;
  consumer = Consumer.loaded 7;
  accepted = 7 ∷ [];
  delivered = [];
}

Reach-midway : Reach 2 started midway
unfolding start init_queue store_elem
Reach-midway =
    next
      (next
        (next
          (next (next (next here (push_test _ 7 refl refl)) (push_store _ 7 (7 ∷ 0 ∷ []) refl refl))
            (push_count _ 7 refl))
          (pop_test _ refl refl))
        (push_test _ 8 refl refl))
      (pop_load _ 7 refl refl)

threads_fifo_example :
    ([] ++ contents 0 (2 ^ 1) midway.queue ≡ 7 ∷ [])
    × (length (contents 0 (2 ^ 1) midway.queue) ≤ 2 ^ 1)
    × (push_at (2 ^ 1) midway.queue < 2)
    × (pop_at (2 ^ 1) midway.queue < 2)
threads_fifo_example = threads_fifo 0 1 (omega arith) Reach-midway
