-- ===== src/Server/Read.antt =====
-- The handler `on_read` (src/main.c): what the kernel's `recv` delivers goes into the read buffer,
-- and every packet that lies there whole is decrypted, checked and queued. `recv` is a parameter: it
-- takes the room and gives the bytes, none where it returns 0 or an error.
pub mod Rounds
pub mod Ends
pub mod Received
pub mod Packet
mod Tests
use leo_net.Base.{
  ℕ, zero, suc, ◌%◌, ◌^◌, bit_xor, Bool, true, false, Option, none, some, List, [], ◌∷◌, ◌++◌, ltb,
  if◌then◌else◌, ◌>>=◌,
}
use leo_net.Base.Lists.{length, get_elem?, take, drop}
use leo_net.Base.Memory.{store_block, store_elem}
use leo_net.Base.Endian.{load16}
use leo_net.Message.{NetMessage, new_message}
use leo_net.Ring.{RingBuffer, available, used, write_at, read_at, peek_read, seek_read, seek_write}
use leo_net.Queue.{push_back}
use leo_net.Protocol.{transform_buffer_to_message}
use leo_net.Sessions.{get_one_session}
use leo_net.Server.{NetSession, Server, max_queue_len}

-- `crc32_table`, and whether `new net_message` succeeds.
module _ (crc32_table : List ℕ) (allocated : Bool) where
  -- One packet of `message_len` bytes.
  unfoldable pub take_packet : ℕ → NetSession → Option NetSession
  take_packet message_len s =
      let rb = s.read_buffer in
      do
        checked ←
            transform_buffer_to_message crc32_table s.crypt new_message
              (drop (read_at rb) rb.ring_buffer) message_len
        let rb' = record rb { ring_buffer = take (read_at rb) rb.ring_buffer ++ checked.2 }
        pushed ← push_back max_queue_len s.read_queue (some new_message)
        some (record s {
          crypt = checked.1;
          read_buffer = (seek_read rb' message_len).1;
          read_queue = pushed.1;
        })

  -- The `do` loop; whether it came to its end, on fuel.
  unfoldable pub read_loop : ℕ → NetSession → Option (Bool × NetSession)
  read_loop zero s = some (false, s)
  read_loop (suc fuel) s = do
    let rb = s.read_buffer
    peeked ← peek_read rb (0 ∷ 0 ∷ []) 2
    if ltb peeked.result 2 then some (true, s) else (do
      masked ← load16 peeked.buffer 0
      let message_len = bit_xor masked (s.crypt.session_key % 2 ^ 16)
      if ltb (used rb) message_len
          then some (true, s)
          else if allocated
          then (do s' ← take_packet message_len s; read_loop fuel s')
          else some (true, s))

  -- The handler on one session.
  unfoldable pub read_session : ℕ → (ℕ → List ℕ) → NetSession → Option (Bool × NetSession)
  read_session fuel recv s =
      let rb = s.read_buffer in
      let bytes = recv (available rb) in
      if ltb 0 (length bytes)
      then (do
        memory ← store_block rb.ring_buffer (write_at rb) bytes
        let received = (seek_write (record rb { ring_buffer = memory }) (length bytes)).1
        read_loop fuel (record s { read_buffer = received }))
      else some (true, s)

  -- The handler: a socket without a session is only reported.
  unfoldable pub on_read : ℕ → (ℕ → List ℕ) → ℕ → Server → Option (Bool × Server)
  on_read fuel recv fd server = do
    session ← get_one_session fd server.manager
    elim session [
      | none ↦ some (true, server)
      | some at ↦ do
        s ← get_elem? server.malloc_session at
        result ← read_session fuel recv s
        sessions ← store_elem server.malloc_session at result.1
        some (result.0, record server { malloc_session = sessions })
    ]
