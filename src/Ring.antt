-- ===== src/Ring.antt =====
-- src/ring_buffer.h and src/ring_buffer.cpp: the byte FIFO `ring_buffer`.
-- A method returns the new state beside its result. `none` is an access out of range, a failed
-- allocation or a failed assertion. The memory barriers have no effect on one thread and are left
-- out.
pub mod Window
pub mod Copy
pub mod Valid
pub mod Advance
pub mod Fifo
pub mod Run
pub mod Construct
mod Tests
use leo_net.Base.{ℕ, ◌+◌, ◌-◌, ◌*◌, ◌/◌, ◌%◌, ◌^◌, bit_and, Bool, true, false, not, ◌&&◌, ◌||◌}
use leo_net.Base.{Option, none, some, List, ltb, leb, ◌==◌, if◌then◌else◌, ◌>>=◌}
use leo_net.Base.{add32, sub32}
use leo_net.Base.Memory.{load_block, store_block}

pub record RingBuffer : Type 0 where
  pub buffer_size : ℕ
  pub ring_buffer : List ℕ
  pub write_p : ℕ
  pub read_p : ℕ

-- What a method that fills or drains a caller's buffer leaves behind.
pub record Transfer : Type 0 where
  pub result : ℕ
  pub ring : RingBuffer
  pub buffer : List ℕ

abbrev pub _min : ℕ → ℕ → ℕ
_min a b = if ltb a b then a else b

abbrev pub _max : ℕ → ℕ → ℕ
_max a b = if ltb b a then a else b

pub is_power_of_2 : ℕ → Bool
is_power_of_2 x = not (x == 0) && (bit_and x (sub32 x 1) == 0)

-- The constructor. `new_char` is the allocator; an `int` size is its bit pattern, and a negative
-- one cannot be allocated.
pub construct : (ℕ → List ℕ) → ℕ → Option RingBuffer
construct new_char buf_size =
    if leb (2 ^ 31) buf_size
    then none
    else if is_power_of_2 buf_size
    then some (record {
      buffer_size = buf_size;
      ring_buffer = new_char buf_size;
      write_p = 0;
      read_p = 0;
    })
    else none

pub clear : RingBuffer → RingBuffer
clear r = record r { write_p = 0; read_p = 0 }

abbrev pub used : RingBuffer → ℕ
used r = sub32 r.write_p r.read_p

abbrev pub available : RingBuffer → ℕ
available r = sub32 r.buffer_size (sub32 r.write_p r.read_p)

unfoldable pub empty : RingBuffer → Bool
empty r = used r == 0

pub full : RingBuffer → Bool
full r = r.buffer_size == used r

-- `write_p()` and `read_p()` as offsets into the storage.
unfoldable pub write_at : RingBuffer → ℕ
write_at r = bit_and r.write_p (sub32 r.buffer_size 1)

unfoldable pub read_at : RingBuffer → ℕ
read_at r = bit_and r.read_p (sub32 r.buffer_size 1)

-- The two `memcpy` of `peek_read` and `kfifo_get`.
pub copy_out : List ℕ → ℕ → ℕ → List ℕ → ℕ → Option (List ℕ)
copy_out memory size at buffer len =
    let i_len = _min len (sub32 size at) in
    do
      first ← load_block memory at i_len
      buffer' ← store_block buffer 0 first
      rest ← load_block memory 0 (sub32 len i_len)
      store_block buffer' i_len rest

-- The two `memcpy` of `peek_write` and `kfifo_put`.
unfoldable pub copy_in : List ℕ → ℕ → ℕ → List ℕ → ℕ → Option (List ℕ)
copy_in memory size at buffer len =
    let i_len = _min len (sub32 size at) in
    do
      first ← load_block buffer 0 i_len
      memory' ← store_block memory at first
      rest ← load_block buffer i_len (sub32 len i_len)
      store_block memory' 0 rest

unfoldable pub peek_read : RingBuffer → List ℕ → ℕ → Option Transfer
peek_read r buffer len =
    if empty r || ltb (used r) len
    then some (record { result = 0; ring = r; buffer = buffer })
    else let n = _min len (sub32 r.write_p r.read_p) in
      do
        buffer' ← copy_out r.ring_buffer r.buffer_size (read_at r) buffer n
        some (record { result = n; ring = r; buffer = buffer' })

unfoldable pub seek_read : RingBuffer → ℕ → Bool × RingBuffer
seek_read r len =
    if ltb (used r) len then (false, r) else (true, record r { read_p = add32 r.read_p len })

pub peek_write : RingBuffer → List ℕ → ℕ → Option Transfer
peek_write r buffer len =
    if (len == 0) || ltb (available r) len
    then some (record { result = 0; ring = r; buffer = buffer })
    else let n = _min len (add32 (sub32 r.buffer_size r.write_p) r.read_p) in
      do
        memory ← copy_in r.ring_buffer r.buffer_size (write_at r) buffer n
        some (record { result = n; ring = record r { ring_buffer = memory }; buffer = buffer })

unfoldable pub seek_write : RingBuffer → ℕ → Bool × RingBuffer
seek_write r len =
    if ltb (available r) len then (false, r) else (true, record r { write_p = add32 r.write_p len })

pub kfifo_get : RingBuffer → List ℕ → ℕ → Option Transfer
kfifo_get r buffer len =
    if empty r
    then some (record { result = 0; ring = r; buffer = buffer })
    else let n = _min len (sub32 r.write_p r.read_p) in
      do
        buffer' ← copy_out r.ring_buffer r.buffer_size (read_at r) buffer n
        some
            (record { result = n; ring = record r { read_p = add32 r.read_p n }; buffer = buffer' })

unfoldable pub kfifo_put : RingBuffer → List ℕ → ℕ → Option Transfer
kfifo_put r buffer len =
    if len == 0
    then some (record { result = 0; ring = r; buffer = buffer })
    else let n = _min len (add32 (sub32 r.buffer_size r.write_p) r.read_p) in
      do
        memory ← copy_in r.ring_buffer r.buffer_size (write_at r) buffer n
        some (record {
          result = n;
          ring = record r { ring_buffer = memory; write_p = add32 r.write_p n };
          buffer = buffer;
        })
