-- ===== src/Queue/Fifo.antt =====
-- What the methods of `static_lock_free_queue` do to the queued values.
use leo_net.Base.{
  ℕ, zero, suc, ◌+◌, ◌-◌, ◌^◌, ◌≤◌, ◌<◌, ◌≡◌, ◌∙◌, refl, sym, ap, ap₂, List, [], ◌∷◌, ◌++◌, ltb,
  if◌then◌else◌, ◌==◌, arith, add32, some, Bool, true, false, Bool-cases, inl, inr, ltb→lt,
}
use leo_net.Base.Lists.{
  length, get_or, set, get_or_ext, length-append, get_or-append, get_or-set, length-set,
  length-replicate, get_elem?, get_elem?-eq-get_or,
}
use leo_net.Base.Circular.{wrap, advance}
use leo_net.Base.Memory.{store_elem}
use leo_net.Queue.{Queue, init_queue, push_back, pop_front}
use leo_net.Queue.Valid.{
  IsValid, count, push_at, pop_at, contents, size_bounds, pop_at-eq, pop_at-lt, push_at-wrap,
  push_at-lt, length-contents, get_or-contents, contents-nil,
}

module _ {A : Type 0} (d : A) {n : ℕ} {q : Queue A} (v : IsValid n q) where
  -- A write to the slot that the next push will take.
  abbrev pub written : A → Queue A
  written x = record q { queue = set q.queue (push_at n q) x }

  pub written-IsValid : (x : A) → IsValid n (written x)
  written-IsValid x = record {
    exponent = v.exponent;
    power = v.power;
    small = v.small;
    slots = length-set q.queue (push_at n q) x ∙ v.slots;
    push_word = v.push_word;
    pop_word = v.pop_word;
    held = v.held;
  }

  -- While there is room, that write touches no queued value.
  pub contents-written : (x : A) → count q < n → contents d n (written x) ≡ contents d n q
  contents-written x room =
      get_or_ext d (contents d n (written x)) (contents d n q)
        (omega (arith, length-contents d v, length-contents d (written-IsValid x)))
        λ i p. ground (
          arith,
          length-contents d (written-IsValid x),
          get_or-contents d (written-IsValid x) i,
          get_or-contents d v i,
          get_or-set q.queue (push_at n q) (wrap n (pop_at n q + i)) x d,
          push_at-wrap d v,
          pop_at-lt d v,
          v.slots,
        )

  -- `__push_index++`
  abbrev pub pushed : Queue A
  pushed = record q { push_index = add32 q.push_index 1 }

  pub count-pushed : count q < n → count pushed ≡ count q + 1
  count-pushed room = omega (arith, v.push_word, v.pop_word, size_bounds d v)

  pub pushed-IsValid : count q < n → IsValid n pushed
  pushed-IsValid room = record {
    exponent = v.exponent;
    power = v.power;
    small = v.small;
    slots = v.slots;
    push_word = omega arith;
    pop_word = v.pop_word;
    held = omega (arith, count-pushed room);
  }

  -- Moving the push counter on makes the slot's value the last one.
  pub contents-pushed :
      (room : count q < n)
      → contents d n pushed ≡ contents d n q ++ (get_or q.queue (push_at n q) d ∷ [])
  contents-pushed room =
      get_or_ext d (contents d n pushed) (contents d n q ++ (get_or q.queue (push_at n q) d ∷ []))
        (omega (
          arith,
          length-contents d (pushed-IsValid room),
          length-contents d v,
          count-pushed room,
          length-append (contents d n q) (get_or q.queue (push_at n q) d ∷ []),
        ))
        λ i p. ground (
          arith,
          length-contents d (pushed-IsValid room),
          length-contents d v,
          count-pushed room,
          get_or-contents d (pushed-IsValid room) i,
          get_or-contents d v i,
          get_or-append (contents d n q) (get_or q.queue (push_at n q) d ∷ []) i d,
          push_at-wrap d v,
        )

  -- `__pop_index++`
  abbrev pub popped : Queue A
  popped = record q { pop_index = add32 q.pop_index 1 }

  module _ (some_left : 0 < count q) where
    pub count-popped : count popped ≡ count q - 1
    count-popped = omega (arith, v.push_word, v.pop_word, size_bounds d v)

    pub popped-IsValid : IsValid n popped
    popped-IsValid = record {
      exponent = v.exponent;
      power = v.power;
      small = v.small;
      slots = v.slots;
      push_word = v.push_word;
      pop_word = omega arith;
      held = omega (arith, count-popped, v.held);
    }

    pop_at-popped : pop_at n popped ≡ wrap n (pop_at n q + 1)
    pop_at-popped =
        pop_at-eq d popped-IsValid
        ∙ advance v.exponent n v.power v.small q.pop_index 1 (omega (arith, size_bounds d v))
        ∙ ap (λ p. wrap n (p + 1)) (sym (pop_at-eq d v))

    oldest-first :
        (i : ℕ)
        → i < count q
        → get_or (contents d n q) i d
          ≡ get_or (get_or q.queue (pop_at n q) d ∷ contents d n popped) i d
    oldest-first zero h =
        get_or-contents d v 0 h ∙ ap (λ p. get_or q.queue p d) (ground (arith, pop_at-lt d v))
    oldest-first (suc i) h = ground (
      arith,
      get_or-contents d v (suc i),
      get_or-contents d popped-IsValid i,
      pop_at-popped,
      count-popped,
      pop_at-lt d v,
      v.held,
    )

    -- Moving the pop counter on takes the oldest value away.
    pub contents-popped : contents d n q ≡ get_or q.queue (pop_at n q) d ∷ contents d n popped
    contents-popped =
        get_or_ext d (contents d n q) (get_or q.queue (pop_at n q) d ∷ contents d n popped)
          (omega (arith, length-contents d v, length-contents d popped-IsValid, count-popped))
          (λ i p. oldest-first i (omega (arith, length-contents d v)))

-- What a bounded queue gives out: whether it had a value, the value or else the caller's own, and
-- what is left.
unfoldable pub unqueue : {A : Type 0} → A → List A → Bool × A × List A
unqueue out [] = (false, out, [])
unqueue out (x ∷ xs) = (true, x, xs)

module _ {A : Type 0} (d : A) {n : ℕ} {q : Queue A} (v : IsValid n q) where
  -- `push_back` on a queue with room appends the value, and on a full one returns false and
  -- leaves all of it as it was; the queue stays valid.
  pub push_back_lem :
      (x : A)
      → let room = ltb (length (contents d n q)) n in
        (q' : Queue A) × (push_back n q x ≡ some (room, q'))
        × IsValid n q'
        × (contents d n q' ≡ (if room then contents d n q ++ (x ∷ []) else contents d n q))
        × (room ≡ false → q' ≡ q)
  unfolding push_back store_elem
  push_back_lem x = rw (length-contents d v) elim (Bool-cases (ltb (count q) n)) [
    | inl free ↦
        let room : count q < n = ltb→lt (count q) n free in
        let w : IsValid n (written d v x) = written-IsValid d v x in
        let in_range : ltb (push_at n q) (length q.queue) ≡ true =
          ground (arith, push_at-lt d v, v.slots) in
        (
          pushed d w,
          rw (free, in_range) refl,
          pushed-IsValid d w room,
          rw free (
              contents-pushed d w room
              ∙ ap₂ (λ xs y. xs ++ (y ∷ [])) (contents-written d v x room)
                  (ground (
                    arith,
                    get_or-set q.queue (push_at n q) (push_at n q) x d,
                    push_at-lt d v,
                    v.slots,
                  ))),
          λ none_free. absurd (ground (arith, free, none_free)),
        )
    | inr taken ↦ (q, rw taken refl, v, rw taken refl, λ none_free. refl)
  ]

  -- `pop_front` on a queue with values hands over the oldest and removes it, and on an empty one
  -- returns false and leaves all of it and the caller's variable as they were; the queue stays valid.
  pub pop_front_lem :
      (out : A)
      → (q' : Queue A) × (pop_front n q out
          ≡ some ((unqueue out (contents d n q)).0, (unqueue out (contents d n q)).1, q'))
        × IsValid n q'
        × (contents d n q' ≡ (unqueue out (contents d n q)).2)
        × (contents d n q ≡ [] → q' ≡ q)
  unfolding pop_front unqueue
  pop_front_lem out = elim (Bool-cases (q.push_index == q.pop_index)) [
    | inl none_left ↦
        let e : contents d n q ≡ [] = contents-nil d v (ground (arith, v.push_word)) in
        (q, rw (none_left, e) refl, v, rw e refl, λ nothing. refl)
    | inr some_left ↦
        let h : 0 < count q = ground (arith, v.push_word, v.pop_word) in
        let e : contents d n q ≡ get_or q.queue (pop_at n q) d ∷ contents d n (popped d v) =
          contents-popped d v h in
        let loads : get_elem? q.queue (pop_at n q) ≡ some (get_or q.queue (pop_at n q) d) =
          get_elem?-eq-get_or q.queue (pop_at n q) d (omega (arith, pop_at-lt d v, v.slots)) in
        (
          popped d v,
          rw (some_left, e, loads) refl,
          popped-IsValid d v h,
          rw e refl,
          λ nothing. absurd (omega (arith, h, length-contents d v, ap length nothing)),
        )
  ]

-- `init_queue` with a power of two for `n` gives a valid queue with nothing in it.
pub init_queue-IsValid :
    {A : Type 0} (zeroed : A) (k : ℕ)
    → k ≤ 30
    → IsValid (2 ^ k) (init_queue zeroed (2 ^ k))
      × (contents zeroed (2 ^ k) (init_queue zeroed (2 ^ k)) ≡ [])
unfolding init_queue
init_queue-IsValid zeroed k small =
    let v : IsValid (2 ^ k) (init_queue zeroed (2 ^ k)) = record {
      exponent = k;
      power = refl;
      small = small;
      slots = length-replicate (2 ^ k) zeroed;
      push_word = omega arith;
      pop_word = omega arith;
      held = omega arith;
    } in
    (v, contents-nil zeroed v refl)
