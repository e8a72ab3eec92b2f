-- ===== src/Server/Session.antt =====
-- The other methods of `net_session` (src/leo_net_session.h, src/leo_net_session.cpp). The two
-- allocators are those of the buffers' constructors. The constructor leaves the keys and the two
-- queues as the memory holds them, since nothing calls `init_queue`; they are parameters.
pub mod Built
pub mod Calls
pub mod Sequences
use leo_net.Base.{ℕ, Bool, Option, none, some, List, ◌>>=◌}
use leo_net.Message.{NetMessage}
use leo_net.Ring.{RingBuffer, Transfer, construct, clear, peek_read}
use leo_net.Queue.{Queue, push_back, pop_front}
use leo_net.Protocol.{AboutCrypt}
use leo_net.Server.{NetSession, max_queue_len}

abbrev pub max_buffer_len : ℕ
max_buffer_len = 4096

unfoldable pub new_session :
    (ℕ → List ℕ)
    → (ℕ → List ℕ)
    → AboutCrypt
    → Queue (Option NetMessage)
    → Queue (Option NetMessage)
    → Option NetSession
new_session new_char new_char' crypt read_queue write_queue = do
  read_buffer ← construct new_char max_buffer_len
  write_buffer ← construct new_char' max_buffer_len
  some (record {
    socket = 0;
    session_id = 0;
    crypt = crypt;
    read_buffer = read_buffer;
    write_buffer = write_buffer;
    read_queue = read_queue;
    write_queue = write_queue;
  })

-- The destructor.
unfoldable pub end_session : NetSession → NetSession
end_session s = record s { read_buffer = clear s.read_buffer; write_buffer = clear s.write_buffer }

unfoldable pub push_to_readqueue : Option NetMessage → NetSession → Option (Bool × NetSession)
push_to_readqueue nm s = do
  pushed ← push_back max_queue_len s.read_queue nm
  some (pushed.0, record s { read_queue = pushed.1 })

-- The message goes into the method's own copy of the pointer.
unfoldable pub fetch_from_readqueue : Option NetMessage → NetSession → Option (Bool × NetSession)
fetch_from_readqueue nm s = do
  popped ← pop_front max_queue_len s.read_queue nm
  some (popped.0, record s { read_queue = popped.2 })

unfoldable pub preread_message_size : List ℕ → ℕ → NetSession → Option (ℕ × List ℕ × NetSession)
preread_message_size buf len s = do
  peeked ← peek_read s.read_buffer buf len
  some (peeked.result, peeked.buffer, record s { read_buffer = peeked.ring })

abbrev pub set_session_id : NetSession → ℕ → NetSession
set_session_id s id = record s { session_id = id }

-- The getters.
abbrev pub get_socket : NetSession → ℕ
get_socket s = s.socket

abbrev pub get_session_id : NetSession → ℕ
get_session_id s = s.session_id

abbrev pub get_rb : NetSession → RingBuffer
get_rb s = s.read_buffer

abbrev pub get_wb : NetSession → RingBuffer
get_wb s = s.write_buffer

abbrev pub get_crypt : NetSession → AboutCrypt
get_crypt s = s.crypt
