-- ===== src/Loop/Begun.antt =====
-- The event loop as `main` (src/main.c) begins it.
use leo_net.Base.{
  ℕ, zero, suc, ◌+◌, ◌-◌, ◌<◌, ◌≤◌, ◌^◌, ◌≡◌, refl, sym, ap, true, false, some, List, [], ◌∷◌, ◌==◌,
  arith,
}
use std.Path.{subst}
use leo_net.Base.Lists.{length, length-replicate}
use leo_net.Queue.Valid.{IsValid}
use leo_net.Sessions.{init_sessions, push_from, new_manager}
use leo_net.Sessions.Map.{Distinct}
use leo_net.Sessions.Pool.{occurs}
use leo_net.Protocol.Key.Sent.{IsKeys}
use leo_net.Server.{NetSession, max_queue_len}
use leo_net.Server.Session.{new_session}
use leo_net.Server.Session.Built.{made}
use leo_net.Server.Session.Calls.{parts-IsSession}
use leo_net.Server.Working.{IsWorking}
use leo_net.Service.{Libevent, no_events, net_events_length, reading}
use leo_net.Service.Wired.{replicate-IsWired}
use leo_net.Start.{System, Memory, Started, new_sessions, main}
use leo_net.Start.Claims.{Allocates, started, main_runs}
use leo_net.Loop.{LoopState, Reach}
use leo_net.Loop.Owners.{holders, IsOwned}
use leo_net.Loop.Kept.{cons-AllWorking, AllWorking}
use leo_net.Loop.Reached.{IsLoop, Reach-IsLoop}

-- The memory of the sessions holds queues that are valid and keys in arrays of their lengths.
pub record IsSettled (memory : Memory) : Type 0 where
  pub read_messages : (i : ℕ) → IsValid max_queue_len (memory.read_queue i)
  pub write_messages : (i : ℕ) → IsValid max_queue_len (memory.write_queue i)
  pub keys : (i : ℕ) → IsKeys (memory.crypt i)

new_sessions-AllWorking :
    (memory : Memory)
    → Allocates memory
    → IsSettled memory
    → (left i : ℕ)
    → (sessions : List NetSession) × (new_sessions memory left i ≡ some sessions)
      × (length sessions ≡ left)
      × AllWorking sessions
unfolding new_sessions new_session
new_sessions-AllWorking memory fine settled zero i =
    ([], refl, refl, λ k s e. absurd (ground (arith, e)))
new_sessions-AllWorking memory fine settled (suc left) i =
    let (r, e, valid, _) = made (memory.new_char i) (fine.reads i) in
    let (w, e', valid', _) = made (memory.new_char' i) (fine.writes i) in
    let (rest, goes, count, all) = new_sessions-AllWorking memory fine settled left (i + 1) in
    let s : NetSession = record {
      socket = 0;
      session_id = 0;
      crypt = memory.crypt i;
      read_buffer = r;
      write_buffer = w;
      read_queue = memory.read_queue i;
      write_queue = memory.write_queue i;
    } in
    let working : IsWorking s = record {
      session = parts-IsSession valid valid' (settled.read_messages i) (settled.write_messages i);
      keys = settled.keys i;
    } in
    (s ∷ rest, rw (e, e', goes) refl, ap suc count, cons-AllWorking s rest working all)

-- Ten sessions in the pool, none with a socket.
ten-IsOwned : IsOwned 10 (init_sessions true new_manager).1
unfolding init_sessions push_from new_manager occurs holders Distinct
ten-IsOwned = record { distinct = _; once = λ x. ground arith; inside = λ x h. ground (arith, h) }

module _ {Base : Type 0} (lib : Libevent Base) (rand : ℕ → ℕ) (memory : Memory)
    (system : System Base) (xor_keys crc32_table : List ℕ) (whole : length xor_keys ≡ 4352)
    (open_ok : (system.listen_fd == 2 ^ 32 - 1) ≡ false) (bind_ok : system.bound < 2 ^ 31)
    (listen_ok : system.listening < 2 ^ 31) where
  -- Given a socket that listens, a table of xor keys of 4352 bytes, a table of the checksum of 256
  -- words or more, which the source's 255 are not, allocators that give as many bytes as are asked for, memory that happens to
  -- hold valid queues and keys, and a base and an event from libevent, `main` comes to its loop,
  -- and whatever connections, data and calls come in whatever order, the loop reaches only sound
  -- states: no session has two sockets or is free while it has one, every session's buffers,
  -- queues and keys are valid, and every event in the table is alive.
  pub main-IsLoop :
      256 ≤ length crc32_table
      → Allocates memory
      → IsSettled memory
      → (eb : Base) (e : ℕ) → system.eb ≡ some eb
      → (lib.event_new system.listen_fd reading eb).0 ≡ some e
      → (st : Started Base) × (main lib rand memory system xor_keys crc32_table ≡ some (some st))
        × ((st' : LoopState Base)
            → Reach lib st.xor_keys st.crc32_table
                (record { service = st.service; server = st.server })
                st'
            → IsLoop st')
  main-IsLoop long fine settled eb e has_eb has_e =
      let (sessions, makes, count, all) = new_sessions-AllWorking memory fine settled 10 0 in
      let (keys, table, runs, keys_whole, keys_bytes) =
        main_runs lib rand memory system xor_keys crc32_table whole open_ok bind_ok listen_ok long
          sessions makes eb e has_eb has_e in
      let st =
        started lib rand memory system xor_keys crc32_table whole open_ok bind_ok listen_ok keys
          table sessions eb e in
      let begins : IsLoop (record { service = st.service; server = st.server }) = record {
        server = record {
          owned = subst (λ n. IsOwned n (init_sessions true new_manager).1) (sym count) ten-IsOwned;
          working = all;
        };
        wired = replicate-IsWired net_events_length st.service.eb (e ∷ []);
        table = length-replicate net_events_length no_events;
      } in
      (st, runs, λ st' r. Reach-IsLoop lib keys table keys_whole keys_bytes r begins)
