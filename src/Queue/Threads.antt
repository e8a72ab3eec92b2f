-- ===== src/Queue/Threads.antt =====
-- `push_back` on one thread and `pop_front` on another (src/leo_lock_free_queue.h, whose comment and
-- src/leo_net_session.h call the queue thread safe). A thread's call is three steps, its test, its
-- access to the slot and its move of the counter, and the steps of the two threads interleave in
-- any way. Each step reads and writes memory in one piece and in program order.
pub mod Safe
pub mod Calls
use leo_net.Base.{
  ℕ, ◌<◌, ◌≡◌, Bool, true, false, some, List, [], ◌∷◌, ◌++◌, ltb, ◌==◌, add32, sub32, bit_and,
}
use leo_net.Base.Lists.{get_elem?}
use leo_net.Base.Memory.{store_elem}
use leo_net.Queue.{Queue, init_queue}

-- Where the pushing thread stands in its call, and where the popping one does.
pub data Producer (A : Type 0) : Type 0 where
  ready : Producer A
  tested : A → Producer A
  stored : A → Producer A

pub data Consumer (A : Type 0) : Type 0 where
  ready : Consumer A
  tested : Consumer A
  loaded : A → Consumer A

-- The queue, the two threads, and the values whose calls have returned true, in order.
pub record System (A : Type 0) : Type 0 where
  pub queue : Queue A
  pub producer : Producer A
  pub consumer : Consumer A
  pub accepted : List A
  pub delivered : List A

unfoldable pub start : {A : Type 0} → A → ℕ → System A
start zeroed n = record {
  queue = init_queue zeroed n;
  producer = Producer.ready;
  consumer = Consumer.ready;
  accepted = [];
  delivered = [];
}

pub data Step {A : Type 0} (n : ℕ) : System A → System A → Type 0 where
  push_test :
      (s : System A) (x : A)
      → s.producer ≡ Producer.ready
      → ltb (sub32 s.queue.push_index s.queue.pop_index) n ≡ true
      → Step n s (record s { producer = Producer.tested x })
  push_store :
      (s : System A) (x : A) (slots : List A)
      → s.producer ≡ Producer.tested x
      → store_elem s.queue.queue (bit_and s.queue.push_index (sub32 n 1)) x ≡ some slots
      → Step n s
          (record s { queue = record s.queue { queue = slots }; producer = Producer.stored x })
  push_count :
      (s : System A) (x : A)
      → s.producer ≡ Producer.stored x
      → Step n s (record s {
        queue = record s.queue { push_index = add32 s.queue.push_index 1 };
        producer = Producer.ready;
        accepted = s.accepted ++ (x ∷ []);
      })
  pop_test :
      (s : System A)
      → s.consumer ≡ Consumer.ready
      → (s.queue.push_index == s.queue.pop_index) ≡ false
      → Step n s (record s { consumer = Consumer.tested })
  pop_load :
      (s : System A) (x : A)
      → s.consumer ≡ Consumer.tested
      → get_elem? s.queue.queue (bit_and s.queue.pop_index (sub32 n 1)) ≡ some x
      → Step n s (record s { consumer = Consumer.loaded x })
  pop_count :
      (s : System A) (x : A)
      → s.consumer ≡ Consumer.loaded x
      → Step n s (record s {
        queue = record s.queue { pop_index = add32 s.queue.pop_index 1 };
        consumer = Consumer.ready;
        delivered = s.delivered ++ (x ∷ []);
      })

pub data Reach {A : Type 0} (n : ℕ) (s : System A) : System A → Type 0 where
  here : Reach n s s
  next : {t u : System A} → Reach n s t → Step n t u → Reach n s u
