-- ===== src/Queue/Threads/Calls.antt =====
-- A call of `push_back` or `pop_front` (src/leo_lock_free_queue.h) as its thread's three steps.
use mathlib.Core.Path.{subst}
use leo_net.Base.{
  Bool-cases, Option-cases, inl, inr, ℕ, ◌≡◌, ◌∙◌, refl, ap, true, false, some, List, [], ◌∷◌, ◌++◌,
  ltb, ◌==◌, arith, add32, sub32, bit_and,
}
use leo_net.Base.Lists.{get_elem?}
use leo_net.Base.Memory.{store_elem}
use leo_net.Queue.{Queue, push_back, pop_front}
use leo_net.Queue.Valid.{count, push_at, pop_at}
use leo_net.Queue.Fifo.{}
use leo_net.Queue.Threads.{
  Producer, Consumer, System, push_test, push_store, push_count, pop_test, pop_load, pop_count,
  Reach, here, next,
}

-- The last step of a call made in one piece.
push_made :
    {A : Type 0} {n : ℕ} (s : System A) (x : A) (slots : List A)
    → s.producer ≡ Producer.ready
    → ltb (sub32 s.queue.push_index s.queue.pop_index) n ≡ true
    → store_elem s.queue.queue (bit_and s.queue.push_index (sub32 n 1)) x ≡ some slots
    → Reach n s (record s {
      queue = record s.queue { queue = slots; push_index = add32 s.queue.push_index 1 };
      producer = Producer.ready;
      accepted = s.accepted ++ (x ∷ []);
    })
push_made s x slots at free stores =
    next (next (next here (push_test s x at free)) (push_store _ x slots refl stores))
      (push_count _ x refl)

-- A call of `push_back` that returns true is the pushing thread's three steps in a row.
pub push_back-Steps :
    {A : Type 0} {n : ℕ} (s : System A) (x : A) (q : Queue A)
    → s.producer ≡ Producer.ready
    → push_back n s.queue x ≡ some (true, q)
    → Reach n s
        (record s { queue = q; producer = Producer.ready; accepted = s.accepted ++ (x ∷ []) })
unfolding push_back
push_back-Steps {A} {n} s x q at e = elim (Bool-cases (ltb (count s.queue) n)) [
  | inr taken ↦ absurd (ground arith)
  | inl free ↦ elim (Option-cases (store_elem s.queue.queue (push_at n s.queue) x)) [
    | inl fails ↦ absurd (ground arith)
    | inr (slots, stores) ↦
        let made : record s.queue { queue = slots; push_index = add32 s.queue.push_index 1 } ≡ q =
          ground arith in
        subst
          (λ q.
            Reach n s (record s {
              queue = q;
              producer = Producer.ready;
              accepted = s.accepted ++ (x ∷ []);
            }))
          made (push_made s x slots at free stores)
  ]
]

pop_made :
    {A : Type 0} {n : ℕ} (s : System A) (x : A)
    → s.consumer ≡ Consumer.ready
    → (s.queue.push_index == s.queue.pop_index) ≡ false
    → get_elem? s.queue.queue (bit_and s.queue.pop_index (sub32 n 1)) ≡ some x
    → Reach n s (record s {
      queue = record s.queue { pop_index = add32 s.queue.pop_index 1 };
      consumer = Consumer.ready;
      delivered = s.delivered ++ (x ∷ []);
    })
pop_made s x at more loads =
    next (next (next here (pop_test s at more)) (pop_load _ x refl loads)) (pop_count _ x refl)

-- A call of `pop_front` that returns true is the popping thread's three steps in a row.
pub pop_front-Steps :
    {A : Type 0} {n : ℕ} (s : System A) (out x : A) (q : Queue A)
    → s.consumer ≡ Consumer.ready
    → pop_front n s.queue out ≡ some (true, x, q)
    → Reach n s
        (record s { queue = q; consumer = Consumer.ready; delivered = s.delivered ++ (x ∷ []) })
unfolding pop_front
pop_front-Steps {A} {n} s out x q at e =
    elim (Bool-cases (s.queue.push_index == s.queue.pop_index)) [
      | inl nothing ↦ absurd (ground arith)
      | inr more ↦ elim (Option-cases (get_elem? s.queue.queue (pop_at n s.queue))) [
        | inl fails ↦ absurd (ground arith)
        | inr (y, loads) ↦
            let made : record s.queue { pop_index = add32 s.queue.pop_index 1 } ≡ q =
              ground arith in
            let same : y ≡ x = ground arith in
            subst
              (λ q. Reach n s (record s {
                queue = q;
                consumer = Consumer.ready;
                delivered = s.delivered ++ (x ∷ []);
              }))
              made (pop_made s x at more (loads ∙ ap some same))
      ]
    ]
