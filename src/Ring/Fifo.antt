-- ===== src/Ring/Fifo.antt =====
-- What the transfers of src/ring_buffer.cpp do to the queue of stored bytes.
use mathlib.Core.List.{append-nil}
use leo_net.Base.{ℕ, ◌≤◌, ◌≡◌, refl, sym, ap, some, List, ◌++◌, min, arith}
use leo_net.Base.{inl, inr, Bool-cases, ltb, ◌==◌, if◌then◌else◌, ◌>>=◌, sub32, add32}
use leo_net.Base.Lists.{length, take, drop}
use leo_net.Ring.{RingBuffer, used, available, read_at, empty, _min}
use leo_net.Ring.{copy_out, peek_read, peek_write, seek_write, kfifo_get, kfifo_put}
use leo_net.Ring.Window.{take-window}
use leo_net.Ring.Copy.{copy_out_lem}
use leo_net.Ring.Valid.{IsValid, contents, size_bounds, read_at-lt}
use leo_net.Ring.Advance.{read_on-IsValid, contents-read_on, put_on}

-- The buffer after `n` bytes of `bytes` were copied to its front.
abbrev pub overwrite : ℕ → List ℕ → List ℕ → List ℕ
overwrite n bytes buffer = take n bytes ++ drop n buffer

copy_out-contents :
    {r : RingBuffer} (v : IsValid r) (buffer : List ℕ) (n : ℕ)
    → n ≤ used r
    → n ≤ length buffer
    → copy_out r.ring_buffer r.buffer_size (read_at r) buffer n
      ≡ some (overwrite n (contents r) buffer)
unfolding contents
copy_out-contents {r} v buffer n enough given =
    rw (take-window r.ring_buffer r.buffer_size (read_at r) (used r) n enough) (
      copy_out_lem r.ring_buffer r.buffer_size (read_at r) n buffer (read_at-lt v)
        (omega (arith, size_bounds v)) (omega (arith, v.held)) v.storage given)

module _ {r : RingBuffer} (v : IsValid r) (buffer : List ℕ) (len : ℕ) where
  pub min-put : _min len (add32 (sub32 r.buffer_size r.write_p) r.read_p) ≡ min len (available r)
  min-put = ground (arith, v.write_word, v.read_word, size_bounds v)

  min-get : _min len (sub32 r.write_p r.read_p) ≡ min len (used r)
  min-get = ground arith

  -- Given a buffer of at least `len` bytes, `kfifo_put` stores as many of its first bytes as fit
  -- behind those already stored, returns how many, and keeps the invariant.
  pub kfifo_put_lem :
      len ≤ length buffer
      → let n = min len (available r) in
        (r' : RingBuffer) × (kfifo_put r buffer len
          ≡ some (record { result = n; ring = r'; buffer = buffer }))
        × IsValid r'
        × (r'.buffer_size ≡ r.buffer_size)
        × (contents r' ≡ contents r ++ take n buffer)
  unfolding kfifo_put
  kfifo_put_lem given = elim (Bool-cases (len == 0)) [
    | inl nothing ↦ (
      r,
      rw nothing (ap (λ n. some (record { result = n; ring = r; buffer = buffer })) (ground arith)),
      v,
      refl,
      let e : min len (available r) ≡ 0 = ground arith in rw e (sym (append-nil (contents r))),
    )
    | inr more ↦
        let (memory, copies, valid, holds) =
          put_on v (min len (available r)) buffer (omega arith) (omega arith) in
        (_, rw (more, min-put, copies) refl, valid, refl, holds)
  ]

  -- With room in the caller's buffer, `kfifo_get` hands over as many of the oldest bytes as were
  -- asked for and stored, returns how many, leaves the rest stored and keeps the invariant.
  pub kfifo_get_lem :
      let n = min len (used r) in
      n ≤ length buffer
      → (r' : RingBuffer) × (kfifo_get r buffer len
          ≡ some (record { result = n; ring = r'; buffer = overwrite n (contents r) buffer }))
        × IsValid r'
        × (r'.buffer_size ≡ r.buffer_size)
        × (contents r' ≡ drop n (contents r))
  unfolding kfifo_get empty
  kfifo_get_lem given = elim (Bool-cases (used r == 0)) [
    | inl nothing ↦
        let e : min len (used r) ≡ 0 = ground arith in (r, rw (nothing, e) refl, v, refl, rw e refl)
    | inr more ↦ (
      _,
      rw (more, min-get, copy_out-contents v buffer (min len (used r)) (omega arith) given) refl,
      read_on-IsValid v (min len (used r)) (omega arith),
      refl,
      contents-read_on v (min len (used r)) (omega arith),
    )
  ]

  -- `peek_read` copies the `len` oldest bytes to a buffer with room for them when `len` are stored,
  -- copies nothing otherwise, and does not change the ring.
  pub peek_read_lem :
      len ≤ length buffer
      → let n = if ltb (used r) len then 0 else len in
        peek_read r buffer len
        ≡ some (record { result = n; ring = r; buffer = overwrite n (contents r) buffer })
  unfolding peek_read empty
  peek_read_lem given = ground (arith, copy_out-contents v buffer len, min-get)

  -- `peek_write` followed by a `seek_write` of what it returned is `kfifo_put`, when the bytes fit.
  pub peek_write-seek_write :
      len ≤ available r
      → (peek_write r buffer len >>= λ t. some (record t { ring = (seek_write t.ring t.result).1 }))
        ≡ kfifo_put r buffer len
  unfolding peek_write kfifo_put seek_write
  peek_write-seek_write room = ground (arith, min-put)
