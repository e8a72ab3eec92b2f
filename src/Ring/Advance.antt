-- ===== src/Ring/Advance.antt =====
-- What moving the two counters of src/ring_buffer.cpp does to a valid buffer and to its contents.
use native.Mathlib.Nat.{mod-lt}
use leo_net.Base.{
  ℕ, ◌+◌, ◌-◌, ◌^◌, ◌≤◌, ◌<◌, ◌≡◌, ◌∙◌, sym, ap, ap₂, some, List, ◌++◌, arith, add32,
}
use leo_net.Base.Lists.{length, take, drop}
use leo_net.Ring.{copy_in, RingBuffer, used, available, read_at, write_at}
use leo_net.Base.Circular.{wrap, advance}
use leo_net.Ring.Window.{window, drop-window}
use leo_net.Ring.Copy.{filled, copy_in_lem, length-filled, window-filled}
use leo_net.Ring.Valid.{IsValid, contents, size_bounds, read_at-eq, read_at-lt, write_at-wrap}
use leo_net.Ring.Valid.{write_at-eq, available-eq}

module _ {r : RingBuffer} (v : IsValid r) (n : ℕ) where
  -- `__read_p += n`
  abbrev pub read_on : RingBuffer
  read_on = record r { read_p = add32 r.read_p n }

  module _ (enough : n ≤ used r) where
    pub used-read_on : used read_on ≡ used r - n
    used-read_on = omega (arith, v.write_word, v.read_word, v.held, size_bounds v)

    -- `seek_read` keeps the invariant.
    pub read_on-IsValid : IsValid read_on
    read_on-IsValid = record {
      exponent = v.exponent;
      power = v.power;
      small = v.small;
      storage = v.storage;
      write_word = v.write_word;
      read_word = omega arith;
      held = omega (arith, used-read_on, v.held);
    }

    read_at-read_on : read_at read_on ≡ wrap r.buffer_size (read_at r + n)
    read_at-read_on =
        read_at-eq read_on-IsValid
        ∙ advance v.exponent r.buffer_size v.power v.small r.read_p n (omega (arith, v.held))
        ∙ ap (λ p. wrap r.buffer_size (p + n)) (sym (read_at-eq v))

    pub contents-read_on : contents read_on ≡ drop n (contents r)
    unfolding contents
    contents-read_on =
        ap₂ (window r.ring_buffer r.buffer_size) read_at-read_on used-read_on
        ∙ sym (
            drop-window r.ring_buffer r.buffer_size (read_at r) (used r) n (read_at-lt v) enough
              v.held)

-- The storage of `r` replaced, and `__write_p += n`.
module _ {r : RingBuffer} (v : IsValid r) (n : ℕ) (memory : List ℕ) where
  abbrev pub write_on : RingBuffer
  write_on = record r { ring_buffer = memory; write_p = add32 r.write_p n }

  module _ (same : length memory ≡ r.buffer_size) (room : n ≤ available r) where
    pub used-write_on : used write_on ≡ used r + n
    used-write_on = omega (arith, v.write_word, v.read_word, v.held, size_bounds v, available-eq v)

    pub write_on-IsValid : IsValid write_on
    write_on-IsValid = record {
      exponent = v.exponent;
      power = v.power;
      small = v.small;
      storage = same;
      write_word = omega arith;
      read_word = v.read_word;
      held = omega (arith, used-write_on, v.held, available-eq v);
    }

    read_at-write_on : read_at write_on ≡ read_at r
    read_at-write_on = read_at-eq write_on-IsValid ∙ sym (read_at-eq v)

    pub contents-write_on : contents write_on ≡ window memory r.buffer_size (read_at r) (used r + n)
    unfolding contents
    contents-write_on = ap₂ (window memory r.buffer_size) read_at-write_on used-write_on

-- Storing bytes behind the contents and moving on appends them.
module _ {r : RingBuffer} (v : IsValid r) (n : ℕ) (buffer : List ℕ) (room : n ≤ available r)
    (given : n ≤ length buffer) where
  stored : List ℕ
  stored = filled r.ring_buffer r.buffer_size (write_at r) n buffer

  at-lt : write_at r < r.buffer_size
  at-lt = rw (write_at-eq v) (mod-lt r.write_p (size_bounds v).0)

  fits : n ≤ r.buffer_size
  fits = omega (arith, available-eq v)

  small : r.buffer_size < 2 ^ 32
  small = omega (arith, size_bounds v)

  copied : copy_in r.ring_buffer r.buffer_size (write_at r) buffer n ≡ some stored
  unfolding stored
  copied =
      copy_in_lem r.ring_buffer r.buffer_size (write_at r) n buffer at-lt small fits v.storage given

  length-stored : length stored ≡ r.buffer_size
  unfolding stored
  length-stored =
      length-filled r.ring_buffer r.buffer_size (write_at r) n buffer at-lt small fits v.storage
        given
      ∙ v.storage

  -- `kfifo_put` from the second test on.
  pub put_on :
      (memory : List ℕ) × (copy_in r.ring_buffer r.buffer_size (write_at r) buffer n ≡ some memory)
      × IsValid (write_on v n memory)
      × (contents (write_on v n memory) ≡ contents r ++ take n buffer)
  unfolding contents stored
  put_on = (
    stored,
    copied,
    write_on-IsValid v n stored length-stored room,
    contents-write_on v n stored length-stored room
        ∙ window-filled r.ring_buffer r.buffer_size (write_at r) n buffer at-lt small fits v.storage
            given (read_at r) (used r) (read_at-lt v) (omega (arith, available-eq v, v.held))
            (write_at-wrap v),
  )
