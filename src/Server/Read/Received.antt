-- ===== src/Server/Read/Received.antt =====
-- Where `on_read` (src/main.c) lets the kernel put the bytes that come in: `recv` is given the write
-- pointer and all the room there is, in one piece.
use leo_net.Base.{
  ℕ, ◌+◌, ◌^◌, ◌≤◌, ◌<◌, ◌≡◌, ◌⊎◌, ◌∙◌, inl, inr, refl, ap, Bool, true, false, Option, none, some,
  List, [], ltb, min, sub32, add32, ◌==◌, arith, ◌>>=◌,
}
use native.Mathlib.Decide.{dec_lt}
use leo_net.Base.Lists.{length, take-length}
use leo_net.Base.Memory.{
  load_block, store_block, slice, splice, load_block_lem, store_block_lem, store_block-eq-none,
}
use leo_net.Ring.{_min, available, write_at, copy_in, kfifo_put, seek_write}
use leo_net.Ring.Valid.{IsValid, size_bounds}
use leo_net.Ring.Fifo.{min-put}
use leo_net.Server.{NetSession}
use leo_net.Server.Read.{read_loop, read_session}

load_whole : (xs : List ℕ) → load_block xs 0 (length xs) ≡ some xs
unfolding slice
load_whole xs = load_block_lem xs 0 (length xs) (omega arith) ∙ ap some (take-length xs)

store_nothing : (m : List ℕ) → store_block m 0 [] ≡ some m
unfolding splice
store_nothing m = store_block_lem m 0 [] (omega arith)

load_nothing : (xs : List ℕ) → load_block xs (length xs) 0 ≡ some []
unfolding slice
load_nothing xs = load_block_lem xs (length xs) 0 (omega arith)

then_nothing : (o : Option (List ℕ)) → (o >>= λ m. store_block m 0 []) ≡ o
then_nothing none = refl
then_nothing (some m) = store_nothing m

-- A copy that does not reach the end of the storage is one block.
copy_in_straight :
    (m : List ℕ) (size at : ℕ) (xs : List ℕ)
    → at + length xs ≤ size
    → size < 2 ^ 32
    → copy_in m size at xs (length xs) ≡ store_block m at xs
unfolding copy_in
copy_in_straight m size at xs fits small =
    let all : _min (length xs) (sub32 size at) ≡ length xs = ground arith in
    let none_left : sub32 (length xs) (length xs) ≡ 0 = omega arith in
    rw (all, load_whole xs, none_left, load_nothing xs) (then_nothing (store_block m at xs))

-- Room that goes round the end of the storage is given to `recv` in one piece all the same.
module _ (crc32_table : List ℕ) (allocated : Bool) (fuel : ℕ) (recv : ℕ → List ℕ) (s : NetSession)
    (valid : IsValid s.read_buffer)
    (given : length (recv (available s.read_buffer)) ≤ available s.read_buffer)
    (some_bytes : 0 < length (recv (available s.read_buffer))) where
  -- On a session with a valid read buffer, when the kernel gives some bytes and no more than there is
  -- room: if they fit between the write pointer and the end of the storage, `on_read` goes on as if
  -- `kfifo_put` had stored them; if not, they are written outside the storage.
  pub read_session_lem :
      let rb = s.read_buffer in
      let bytes = recv (available rb) in
      ((write_at rb + length bytes ≤ rb.buffer_size)
        × (read_session crc32_table allocated fuel recv s ≡ (
            kfifo_put rb bytes (length bytes) >>= λ t.
            read_loop crc32_table allocated fuel (record s { read_buffer = t.ring }))))
      ⊎ ((rb.buffer_size < write_at rb + length bytes)
          × (read_session crc32_table allocated fuel recv s ≡ none))
  unfolding read_session seek_write kfifo_put
  read_session_lem =
      let rb = s.read_buffer in
      let bytes = recv (available rb) in
      let more : ltb 0 (length bytes) ≡ true = ground arith in
      let storage = valid.storage in
      elim (dec_lt rb.buffer_size (write_at rb + length bytes)) [
        | yes beyond ↦
            let outside =
              store_block-eq-none rb.ring_buffer (write_at rb) bytes (omega (arith, storage)) in
            inr (beyond, rw (more, outside) refl)
        | no inside ↦
            let fits : write_at rb + length bytes ≤ rb.buffer_size = omega arith in
            let straight =
              copy_in_straight rb.ring_buffer rb.buffer_size (write_at rb) bytes fits
                (omega (arith, size_bounds valid)) in
            let some_room : (length bytes == 0) ≡ false = ground arith in
            let put = min-put valid bytes (length bytes) in
            let all : min (length bytes) (available rb) ≡ length bytes = ground arith in
            let room : ltb (available rb) (length bytes) ≡ false = ground arith in
            let stores =
              store_block_lem rb.ring_buffer (write_at rb) bytes (omega (arith, storage)) in
            let puts : kfifo_put rb bytes (length bytes)
                ≡ some (record {
                  result = length bytes;
                  ring = record rb {
                    ring_buffer = splice (write_at rb) bytes rb.ring_buffer;
                    write_p = add32 rb.write_p (length bytes);
                  };
                  buffer = bytes;
                }) =
              rw (some_room, put, all, straight, stores) refl in
            inl (fits, rw (more, stores, room, puts) refl)
      ]
