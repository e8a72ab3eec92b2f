-- ===== src/Server.antt =====
-- A connection, `net_session` (src/leo_net_session.h), and the handler `on_write` (src/main.c) that
-- frames the queued messages and sends the write buffer. `none` is an access out of range or through
-- a pointer that was never set. The call of
-- `del_write_event` is part of a result. The kernel's `send` is a
-- parameter: it takes the bytes and gives the returned `int`'s bits.
pub mod Write
pub mod Read
pub mod Accept
pub mod Session
pub mod Working
mod Tests
use leo_net.Base.{
  ℕ, zero, suc, ◌+◌, ◌^◌, Bool, true, false, ◌&&◌, Option, none, some, List, ◌++◌, ltb,
  if◌then◌else◌, ◌>>=◌,
}
use leo_net.Base.Lists.{get_elem?, take, drop}
use leo_net.Base.Memory.{load_block, store_elem}
use leo_net.Message.{NetMessage}
use leo_net.Ring
use leo_net.Ring.{RingBuffer, used, write_at, read_at, seek_write}
use leo_net.Queue.{Queue, push_back, pop_front}
use leo_net.Protocol.{AboutCrypt, transform_message_to_buffer}
use leo_net.Sessions.{SessionManager, get_one_session}
use leo_net.Service.{Libevent, Service, add_write_event}

-- A `net_message*` is `none` where it is null or was never set.
pub record NetSession : Type 0 where
  pub socket : ℕ
  pub session_id : ℕ
  pub crypt : AboutCrypt
  pub read_buffer : RingBuffer
  pub write_buffer : RingBuffer
  pub read_queue : Queue (Option NetMessage)
  pub write_queue : Queue (Option NetMessage)

abbrev pub max_queue_len : ℕ
max_queue_len = 128

-- With the service, whose table `add_write_event` looks the session's socket up in.
pub push_to_writequeue :
    {Base : Type 0}
    → Libevent Base
    → Option NetMessage
    → NetSession
    → Service Base
    → Option (Bool × NetSession × Service Base)
push_to_writequeue lib nm s v = do
  v' ← if Ring.empty s.write_buffer then add_write_event lib s.socket v else some v
  pushed ← push_back max_queue_len s.write_queue nm
  some (pushed.0, record s { write_queue = pushed.1 }, v')

-- The message goes into the method's own copy of the pointer.
pub fetch_from_writequeue : Option NetMessage → NetSession → Option (Bool × NetSession)
fetch_from_writequeue nm s = do
  popped ← pop_front max_queue_len s.write_queue nm
  some (popped.0, record s { write_queue = popped.2 })

-- One message into the write buffer.
pub frame_message : NetMessage → NetSession → Option NetSession
frame_message nm s =
    let wb = s.write_buffer in
    do
      framed ←
          transform_message_to_buffer s.crypt nm (drop (write_at wb) wb.ring_buffer) nm.real_size
      let written = record wb { ring_buffer = take (write_at wb) wb.ring_buffer ++ framed.1 }
      if ltb 0 framed.0
          then some (record s { write_buffer = (seek_write written framed.0).1 })
          else some (record s { write_buffer = written })

-- The `do` loop, `message` being the handler's variable; whether it came to its end, on fuel.
unfoldable pub write_loop : ℕ → Option NetMessage → NetSession → Option (Bool × NetSession)
write_loop zero message s = some (false, s)
write_loop (suc fuel) message s = do
  fetched ← fetch_from_writequeue message s
  elim fetched.0 [
    | true ↦ do nm ← message; s' ← frame_message nm fetched.1; write_loop fuel message s'
    | false ↦ some (true, fetched.1)
  ]

-- The rest of the handler: whether `del_write_event` is called.
unfoldable pub send_buffer : (List ℕ → ℕ) → NetSession → Option (Bool × NetSession)
send_buffer send s =
    let wb = s.write_buffer in
    do
      bytes ← load_block wb.ring_buffer (read_at wb) (used wb)
      let len = send bytes
      some (ltb 0 len && ltb len (2 ^ 31) && Ring.empty wb, s)

-- The handler on one session: whether it came to its end, and whether it calls `del_write_event`.
unfoldable pub write_session : ℕ → (List ℕ → ℕ) → NetSession → Option (Bool × Bool × NetSession)
write_session fuel send s = do
  looped ← write_loop fuel none s
  if looped.0
      then (do sent ← send_buffer send looped.1; some (true, sent.0, sent.1))
      else some (false, false, looped.1)

-- The manager and `__malloc_session`.
pub record Server : Type 0 where
  pub manager : SessionManager
  pub malloc_session : List NetSession

-- The handler: a socket without a session is only reported.
unfoldable pub on_write : ℕ → (List ℕ → ℕ) → ℕ → Server → Option (Bool × Bool × Server)
on_write fuel send fd server = do
  session ← get_one_session fd server.manager
  elim session [
    | none ↦ some (true, false, server)
    | some at ↦ do
      s ← get_elem? server.malloc_session at
      result ← write_session fuel send s
      sessions ← store_elem server.malloc_session at result.2
      some (result.0, result.1, record server { malloc_session = sessions })
  ]
