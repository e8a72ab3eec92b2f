-- ===== src/Lib.antt =====
-- LeoNet, a small TCP game server on libevent, and what its own code computes.
--
-- An incoming packet goes through a session's read buffer (`ring_buffer`), is decrypted and checked
-- (`leo_tcp_game_protocol`, on `leo_dof_crypto`) and becomes a `net_message` in a lock free queue for
-- the thread of the game's logic; an outgoing message goes the other way, from a second queue through
-- the framing into the write buffer. The `session_manager` gives a connection one of ten sessions and
-- finds it again by its socket. The handlers in `main.c` tie these together.
--
-- - Base: the shared names, C's tests and fixed widths (Base/Tests, Base/Word), lists (Base/Lists),
--   blocks of memory with `memcpy` (Base/Memory), words in memory, lowest byte first (Base/Endian),
--   the bitwise operators (Base/Bits) and windows that go round (Base/Circular).
-- - Ring: `src/ring_buffer.h`, `src/ring_buffer.cpp`. One function per method, under the method's name
--   (`write_p()` and `read_p()` as offsets are `write_at` and `read_at`). Ring/Valid has the invariant,
--   Ring/Fifo each method's behaviour, Ring/Run runs of any calls and the bounded FIFO they implement,
--   Ring/Construct the constructor.
-- - Queue: `src/leo_lock_free_queue.h`. Queue/Fifo has the methods on one thread, Queue/Threads the
--   steps of a pushing and of a popping thread, with Queue/Threads/Safe for all their interleavings.
-- - Xor, Crc: `src/leo_dof_crypto.c`. Xor has `xor_crypt` and `xor_decrypt`, Xor/Keys the table of keys;
--   Crc has `reflect`, `initial_crc32_table`, `generate_crc32` and `check_crc32`.
-- - Message: `src/leo_net_message.h`.
-- - Des: `src/leo_des_crypto.c`. Des/Boxes and Des/Transposes have its tables, Des/Small the tables
--   of the `SMALL` build, Des/Schedule the key words, Des/Octets, Des/Permute and Des/Inverse the two
--   transposes as permutations of bits, Des/Rounds the sixteen rounds, Des/Crypt a block, Des/Blocks,
--   Des/Ecb and Des/Cbc the two modes. Des/Standard has the cipher as FIPS 46-3 describes it, with
--   the tables of that document, and Des/Standard/Keys its key schedule; the files below these compare
--   the two. The table `keys` that `des_setkey` leaves behind is passed on.
-- - Protocol: `src/leo_tcp_game_protocol.c`, what is sent (Protocol/Send), what is received
--   (Protocol/Receive) and `send_key` (Protocol/Key).
-- - Sessions: `session_manager` of `src/leo_net_session.h` and `src/leo_net_session.cpp`, its pool
--   (Sessions/Pool) and its map (Sessions/Map).
-- - Singleton: `src/leo_singleton.h`.
-- - Service: `src/leo_net_service.c`, the table of events by socket and the handlers that libevent
--   calls, with `add_write_event` and `del_write_event` of `src/leo_net_session.cpp`. Service/Accept
--   has the handler of a new connection, Service/Wired the invariant of the table, Service/Table the two
--   methods' effect on it, Service/Sockets the wrappers of the system's calls.
-- - Loop: the event loop, with the handlers, the kernel and the thread of the game's logic taking
--   steps in any order. Loop/Owners says who has a session, Loop/Kept that every handler keeps the
--   server sound, Loop/Reached is about the states that the loop reaches, Loop/Begun about the one
--   in which `main` starts it, Loop/Apart about two connections and Loop/Claimed about the session
--   that a connection claims.
-- - Start: `main` of `src/main.c` up to libevent's loop (Start/Claims).
-- - Server: `net_session` of `src/leo_net_session.h` and `src/leo_net_session.cpp` (Server, and the rest
--   of it in Server/Session, with the constructor in Server/Session/Built and calls in
--   Server/Session/Calls and Server/Session/Sequences), and of `src/main.c` the handlers
--   `on_write` (Server/Write), `on_read` (Server/Read) and `on_accept` (Server/Accept).
--   Server/Read/Received has where the bytes go that come in, Server/Read/Packet a packet taken,
--   Server/Working what holds of a session between two events.
--
-- State is passed on: a method takes the object's record and gives the new one beside its result.
-- Unsigned arithmetic wraps as the source's does, at 32 or 16 bits; `unsigned long` has 32 bits, as on
-- Windows, for which the repository has its project files; an `int` is its bit pattern. A
-- `none` in place of a whole result is behaviour that C leaves undefined, an access out of range or
-- through a pointer that is not one, or a failed assertion. Loops are structural recursion on the
-- number of rounds left. Only the loops of `on_write` and `on_read` have fuel, with a mark for where it
-- runs out. The first round ends that of `on_write`, whether a message is queued or not; each round of
-- that of `on_read` takes a packet of at least one byte, so that one round more than bytes are stored
-- is enough.
--
-- The allocators, `rand`, libevent, the kernel's calls and what fresh memory holds are parameters, and
-- so is the array `crc32_table`, which the source declares with 255 words where 256 are written and
-- read. A step of the event loop (Loop) is one that makes no access out of range.
-- Not modelled: `src/leo_standard_des_crypto.c`, another project's code that nothing calls; the
-- headers of libevent and `tree.h`; and the effect of weak memory on the queue, whose threads here see
-- each other's steps in program order.
pub mod Base
pub mod Ring
pub mod Queue
pub mod Xor
pub mod Crc
pub mod Message
pub mod Protocol
pub mod Sessions
pub mod Server
pub mod Des
pub mod Service
pub mod Singleton
pub mod Start
pub mod Loop
