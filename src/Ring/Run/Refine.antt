-- ===== src/Ring/Run/Refine.antt =====
-- The calls on a valid `ring_buffer` are those of a bounded queue of bytes.
use leo_net.Base.{
  ℕ, zero, suc, true, false, ◌-◌, ◌≤◌, ◌≡◌, ◌∙◌, refl, sym, ap, ap₂, some, List, [], ◌∷◌, min,
  arith, ltb,
}
use leo_net.Base.{Bool-cases, inl, inr}
use leo_net.Base.Lists.{
  length, take, drop, replicate, length-replicate, length-take, take-append_self,
}
use leo_net.Ring.{RingBuffer, clear, used, available, seek_read}
use leo_net.Ring.Window.{window}
use leo_net.Ring.Valid.{IsValid, contents, length-contents, available-eq}
use leo_net.Ring.Advance.{read_on-IsValid, contents-read_on}
use leo_net.Ring.Fifo.{overwrite, kfifo_put_lem, kfifo_get_lem, peek_read_lem}
use leo_net.Ring.Run.{Op, put, get, peek, skip, reset, bytes}
use leo_net.Ring.Run.{call, run, serve, serve_all}

-- Taking or dropping more than there is makes no difference.
pub take-min : (n m : ℕ) (xs : List ℕ) → m ≡ min n (length xs) → take m xs ≡ take n xs
take-min zero m xs e = let d : m ≡ 0 = omega arith in rw d refl
take-min (suc n) m [] e = let d : m ≡ 0 = omega arith in rw d refl
take-min (suc n) zero (x ∷ xs) e = absurd (omega arith)
take-min (suc n) (suc m) (x ∷ xs) e = ap (λ ys. x ∷ ys) (take-min n m xs (omega arith))

pub drop-min : (n m : ℕ) (xs : List ℕ) → m ≡ min n (length xs) → drop m xs ≡ drop n xs
drop-min zero m xs e = let d : m ≡ 0 = omega arith in rw d refl
drop-min (suc n) m [] e = let d : m ≡ 0 = omega arith in rw d refl
drop-min (suc n) zero (x ∷ xs) e = absurd (omega arith)
drop-min (suc n) (suc m) (x ∷ xs) e = drop-min n m xs (omega arith)

pub take-overwrite :
    (n : ℕ) (xs buffer : List ℕ) → n ≤ length xs → take n (overwrite n xs buffer) ≡ take n xs
take-overwrite n xs buffer h =
    let e : length (take n xs) ≡ n = omega (arith, length-take n xs) in
    ap (λ k. take k (overwrite n xs buffer)) (sym e) ∙ take-append_self (take n xs) (drop n buffer)

-- The call returns what the queue returns, and leaves a valid ring that holds the queue's bytes.
abbrev pub Serves : RingBuffer → Op → Type 0
Serves r op =
    (r' : RingBuffer) × (call r op ≡ some ((serve r.buffer_size (contents r) op).0, r'))
    × IsValid r'
    × (r'.buffer_size ≡ r.buffer_size)
    × (contents r' ≡ (serve r.buffer_size (contents r) op).1)

module _ {r : RingBuffer} (v : IsValid r) where
  put-Serves : (bs : List ℕ) → Serves r (put bs)
  unfolding call serve
  put-Serves bs =
      let (r', puts, valid, same, holds) = kfifo_put_lem v bs (length bs) (omega arith) in
      let e : r.buffer_size - length (contents r) ≡ available r =
        omega (arith, length-contents r, available-eq v) in
      (r', rw (e, puts) refl, valid, same, rw e holds)

  get-Serves : (n : ℕ) → Serves r (get n)
  unfolding call serve
  get-Serves n =
      let room : min n (used r) ≤ length (replicate n zero) =
        omega (arith, length-replicate n zero) in
      let e : min n (used r) ≡ min n (length (contents r)) = omega (arith, length-contents r) in
      let (r', gets, valid, same, holds) = kfifo_get_lem v (replicate n 0) n room in
      let got : take (min n (used r)) (overwrite (min n (used r)) (contents r) (replicate n 0))
          ≡ take n (contents r) =
        take-overwrite (min n (used r)) (contents r) (replicate n 0)
          (omega (arith, length-contents r))
        ∙ take-min n (min n (used r)) (contents r) e in
      (
        r',
        rw gets (ap (λ b. some (bytes b, r')) got),
        valid,
        same,
        holds ∙ drop-min n (min n (used r)) (contents r) e,
      )

  peek-Serves : (n : ℕ) → Serves r (peek n)
  unfolding call serve
  peek-Serves n = (
    r,
    ground (
      arith,
      peek_read_lem v (replicate n 0) n (omega (arith, length-replicate n zero)),
      length-contents r,
      take-overwrite n (contents r) (replicate n 0),
    ),
    v,
    refl,
    refl,
  )

  skip-Serves : (n : ℕ) → Serves r (skip n)
  unfolding call serve seek_read
  skip-Serves n = elim (Bool-cases (ltb (used r) n)) [
    | inl short ↦
        let e : ltb (length (contents r)) n ≡ true = ground (arith, length-contents r) in
        (r, rw (short, e) refl, v, refl, rw e refl)
    | inr enough ↦
        let e : ltb (length (contents r)) n ≡ false = ground (arith, length-contents r) in
        let h : n ≤ used r = ground arith in
        (_, rw (enough, e) refl, read_on-IsValid v n h, refl, rw e (contents-read_on v n h))
  ]

  reset-Serves : Serves r reset
  unfolding call serve clear contents window
  reset-Serves = (
    _,
    refl,
    record {
      exponent = v.exponent;
      power = v.power;
      small = v.small;
      storage = v.storage;
      write_word = omega arith;
      read_word = omega arith;
      held = omega arith;
    },
    refl,
    refl,
  )

  call-Serves : (op : Op) → Serves r op
  call-Serves (put bs) = put-Serves bs
  call-Serves (get n) = get-Serves n
  call-Serves (peek n) = peek-Serves n
  call-Serves (skip n) = skip-Serves n
  call-Serves reset = reset-Serves

follows :
    (ops : List Op) (cap : ℕ) (q : List ℕ) {r : RingBuffer}
    → IsValid r
    → r.buffer_size ≡ cap
    → contents r ≡ q
    → let (replies, q') = serve_all cap q ops in
      (r' : RingBuffer) × (run r ops ≡ some (replies, r')) × IsValid r' × (contents r' ≡ q')
unfolding run serve_all
follows [] cap q {r} v size holds = (r, refl, v, holds)
follows (op ∷ ops) cap q {r} v size holds =
    let (r', calls, valid, same, holds') = call-Serves v op in
    let served : serve r.buffer_size (contents r) op ≡ serve cap q op =
      ap₂ (λ c b. serve c b op) size holds in
    let (r'', runs, valid', end) =
      follows ops cap (serve cap q op).1 valid (same ∙ size) (holds' ∙ ap (λ p. p.1) served) in
    (
      r'',
      rw (calls, runs)
          (ap (λ p. some (p.0 ∷ (serve_all cap (serve cap q op).1 ops).0, r'')) served),
      valid',
      end,
    )

-- Any sequence of calls on a valid ring runs without an access out of range, answers as the queue
-- of the same capacity does, and leaves a valid ring that holds what the queue holds.
pub run_refines :
    (ops : List Op) {r : RingBuffer}
    → IsValid r
    → let (replies, q) = serve_all r.buffer_size (contents r) ops in
      (r' : RingBuffer) × (run r ops ≡ some (replies, r')) × IsValid r' × (contents r' ≡ q)
run_refines ops {r} v = follows ops r.buffer_size (contents r) v refl refl
