-- ===== src/Queue/Threads/Safe.antt =====
-- No interleaving of one pushing and one popping thread loses, repeats or reorders a value.
use mathlib.Core.List.{append_assoc}
use mathlib.Core.Path.{subst}
use leo_net.Base.{
  ℕ, ◌≤◌, ◌<◌, ◌^◌, ◌≡◌, ◌∙◌, sym, ap, ap₂, some, List, [], ◌∷◌, ◌++◌, ltb→lt, arith,
}
use leo_net.Base.Lists.{length, get_elem?, get_or, set, get_or-set, get_elem?-eq-get_or}
use leo_net.Base.Memory.{store_elem}
use leo_net.Queue.{Queue}
use leo_net.Queue.Valid.{
  IsValid, count, contents, push_at, pop_at, length-contents, push_at-wrap, pop_at-lt, push_at-lt,
}
use leo_net.Queue.Fifo.{
  written, written-IsValid, contents-written, pushed, pushed-IsValid, count-pushed, contents-pushed,
}
use leo_net.Queue.Fifo.{init_queue-IsValid, popped, popped-IsValid, count-popped, contents-popped}
use leo_net.Queue.Threads.{
  Producer, Consumer, System, start, Step, push_test, push_store, push_count, pop_test, pop_load,
  pop_count, Reach, here, next,
}

module _ {A : Type 0} (d : A) (n : ℕ) where
  -- What a thread in the middle of its call may rely on.
  abbrev pub Producing : Queue A → Producer A → Type 0
  Producing q Producer.ready = Unit {0}
  Producing q (Producer.tested x) = count q < n
  Producing q (Producer.stored x) = (count q < n) × (get_or q.queue (push_at n q) d ≡ x)

  abbrev pub Consuming : Queue A → Consumer A → Type 0
  Consuming q Consumer.ready = Unit {0}
  Consuming q Consumer.tested = 0 < count q
  Consuming q (Consumer.loaded x) = (0 < count q) × (get_or q.queue (pop_at n q) d ≡ x)

  pub record IsConsistent (s : System A) : Type 0 where
    pub valid : IsValid n s.queue
    pub order : s.delivered ++ contents d n s.queue ≡ s.accepted
    pub producing : Producing s.queue s.producer
    pub consuming : Consuming s.queue s.consumer

  module _ {q : Queue A} (v : IsValid n q) where
    Consuming-written :
        (x : A) (k : Consumer A) → count q < n → Consuming q k → Consuming (written d v x) k
    Consuming-written x Consumer.ready room c = c
    Consuming-written x Consumer.tested room c = c
    Consuming-written x (Consumer.loaded y) room c = (
      c.0,
      ground (
        arith,
        get_or-set q.queue (push_at n q) (pop_at n q) x d,
        push_at-wrap d v,
        pop_at-lt d v,
        v.slots,
      ),
    )

    Consuming-pushed : (k : Consumer A) → count q < n → Consuming q k → Consuming (pushed d v) k
    Consuming-pushed Consumer.ready room c = c
    Consuming-pushed Consumer.tested room c = omega (arith, count-pushed d v room)
    Consuming-pushed (Consumer.loaded y) room c = (omega (arith, count-pushed d v room), c.1)

    Producing-popped : (p : Producer A) → 0 < count q → Producing q p → Producing (popped d v) p
    Producing-popped Producer.ready left c = c
    Producing-popped (Producer.tested x) left c = omega (arith, count-popped d v left)
    Producing-popped (Producer.stored x) left c = (omega (arith, count-popped d v left), c.1)

  module _ {s : System A} (c : IsConsistent s) where
    store-IsConsistent :
        (x : A)
        → s.producer ≡ Producer.tested x
        → IsConsistent (record s { queue = written d c.valid x; producer = Producer.stored x })
    store-IsConsistent x at =
        let room : count s.queue < n = subst (Producing s.queue) at c.producing in
        record {
          valid = written-IsValid d c.valid x;
          order = ap (λ xs. s.delivered ++ xs) (contents-written d c.valid x room) ∙ c.order;
          producing = (
            room,
            ground (
              arith,
              get_or-set s.queue.queue (push_at n s.queue) (push_at n s.queue) x d,
              push_at-lt d c.valid,
              c.valid.slots,
            ),
          );
          consuming = Consuming-written c.valid x s.consumer room c.consuming;
        }

    store-written :
        (x : A) (slots : List A)
        → store_elem s.queue.queue (push_at n s.queue) x ≡ some slots
        → set s.queue.queue (push_at n s.queue) x ≡ slots
    unfolding store_elem
    store-written x slots stores = ground (arith, push_at-lt d c.valid, c.valid.slots)

    push_count-IsConsistent :
        (x : A)
        → s.producer ≡ Producer.stored x
        → IsConsistent (record s {
          queue = pushed d c.valid;
          producer = Producer.ready;
          accepted = s.accepted ++ (x ∷ []);
        })
    push_count-IsConsistent x at =
        let (room, there) = subst (Producing s.queue) at c.producing in
        record {
          valid = pushed-IsValid d c.valid room;
          order =
              ap (λ xs. s.delivered ++ xs) (contents-pushed d c.valid room)
              ∙ sym (append_assoc s.delivered (contents d n s.queue) _)
              ∙ ap₂ (λ xs y. xs ++ (y ∷ [])) c.order there;
          producing = tt;
          consuming = Consuming-pushed c.valid s.consumer room c.consuming;
        }

    pop_count-IsConsistent :
        (x : A)
        → s.consumer ≡ Consumer.loaded x
        → IsConsistent (record s {
          queue = popped d c.valid;
          consumer = Consumer.ready;
          delivered = s.delivered ++ (x ∷ []);
        })
    pop_count-IsConsistent x at =
        let (left, there) = subst (Consuming s.queue) at c.consuming in
        record {
          valid = popped-IsValid d c.valid left;
          order =
              append_assoc s.delivered (x ∷ []) _
              ∙ ap (λ y. s.delivered ++ (y ∷ contents d n (popped d c.valid))) (sym there)
              ∙ ap (λ xs. s.delivered ++ xs) (sym (contents-popped d c.valid left))
              ∙ c.order;
          producing = Producing-popped c.valid s.producer left c.producing;
          consuming = tt;
        }

    load-head :
        (x : A)
        → get_elem? s.queue.queue (pop_at n s.queue) ≡ some x
        → get_or s.queue.queue (pop_at n s.queue) d ≡ x
    load-head x loads = ground (
      arith,
      get_elem?-eq-get_or s.queue.queue (pop_at n s.queue) d,
      pop_at-lt d c.valid,
      c.valid.slots,
    )

  Step-IsConsistent : {s t : System A} → Step n s t → IsConsistent s → IsConsistent t
  Step-IsConsistent (push_test s x at free) c = record {
    valid = c.valid;
    order = c.order;
    producing = ltb→lt _ _ free;
    consuming = c.consuming;
  }
  Step-IsConsistent (push_store s x slots at stores) c =
      subst
        (λ slots.
          IsConsistent
            (record s { queue = record s.queue { queue = slots }; producer = Producer.stored x }))
        (store-written c x slots stores) (store-IsConsistent c x at)
  Step-IsConsistent (push_count s x at) c = push_count-IsConsistent c x at
  Step-IsConsistent (pop_test s at more) c = record {
    valid = c.valid;
    order = c.order;
    producing = c.producing;
    consuming = ground (arith, c.valid.push_word, c.valid.pop_word);
  }
  Step-IsConsistent (pop_load s x at loads) c = record {
    valid = c.valid;
    order = c.order;
    producing = c.producing;
    consuming = (subst (Consuming s.queue) at c.consuming, load-head c x loads);
  }
  Step-IsConsistent (pop_count s x at) c = pop_count-IsConsistent c x at

  Reach-IsConsistent : {s t : System A} → IsConsistent s → Reach n s t → IsConsistent t
  Reach-IsConsistent c here = c
  Reach-IsConsistent c (next r step) = Step-IsConsistent step (Reach-IsConsistent c r)

start-IsConsistent :
    {A : Type 0} (zeroed : A) (k : ℕ) → k ≤ 30 → IsConsistent zeroed (2 ^ k) (start zeroed (2 ^ k))
unfolding start
start-IsConsistent zeroed k small = record {
  valid = (init_queue-IsValid zeroed k small).0;
  order = (init_queue-IsValid zeroed k small).1;
  producing = tt;
  consuming = tt;
}

-- Whatever the interleaving, from an empty queue with a power of two of slots: the values handed
-- over and those still queued are, in order, the values accepted; no more than `n` are queued; and
-- both threads stay inside the slots.
pub threads_fifo :
    {A : Type 0} (zeroed : A) (k : ℕ) {s : System A}
    → k ≤ 30
    → Reach (2 ^ k) (start zeroed (2 ^ k)) s
    → (s.delivered ++ contents zeroed (2 ^ k) s.queue ≡ s.accepted)
      × (length (contents zeroed (2 ^ k) s.queue) ≤ 2 ^ k)
      × (push_at (2 ^ k) s.queue < length s.queue.queue)
      × (pop_at (2 ^ k) s.queue < length s.queue.queue)
threads_fifo zeroed k {s} small r =
    let c = Reach-IsConsistent zeroed (2 ^ k) (start-IsConsistent zeroed k small) r in
    (
      c.order,
      omega (arith, length-contents zeroed c.valid, c.valid.held),
      omega (arith, push_at-lt zeroed c.valid, c.valid.slots),
      omega (arith, pop_at-lt zeroed c.valid, c.valid.slots),
    )
