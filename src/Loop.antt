-- ===== src/Loop.antt =====
-- The event loop that `main` (src/main.c) ends in: libevent calls `net_event_accept`,
-- `net_event_read` and `net_event_write` (src/leo_net_service.c), which call `on_accept`, `on_read`
-- and `on_write`, and the thread of the game's logic calls a session's methods in between. What the
-- kernel, the allocators and `rand` give is chosen at each step.
pub mod Owners
pub mod Kept
pub mod Reached
pub mod Begun
pub mod Apart
pub mod Claimed
mod Tests
use leo_net.Base.{ℕ, ◌≡◌, Bool, true, false, Option, some, List, if◌then◌else◌}
use leo_net.Base.Lists.{length, get_elem?}
use leo_net.Base.Memory.{store_elem}
use leo_net.Base.Endian.{IsBytes}
use leo_net.Server.{NetSession, Server, on_write}
use leo_net.Server.Read.{on_read}
use leo_net.Server.Accept.{on_accept}
use leo_net.Server.Session.Calls.{Call, call}
use leo_net.Service.{Libevent, Service, is_alive, reading, net_event_accept, del_write_event}

pub record LoopState (Base : Type 0) : Type 0 where
  pub service : Service Base
  pub server : Server

-- The buffer of `on_accept`, before it is written.
abbrev pub buf_length : ℕ
buf_length = 32

module _ {Base : Type 0} (lib : Libevent Base) (xor_keys crc32_table : List ℕ) where
  -- A step goes through only where no access is out of range. `malloc` gives no address that is in
  -- use.
  pub data Step (st : LoopState Base) : LoopState Base → Type 0 where
    accepts :
        (fd rand rand' : ℕ) (buf : List ℕ) (service : Service Base) (server : Server)
        → length buf ≡ buf_length
        → IsBytes buf
        → ((e : ℕ)
            → (lib.event_new fd reading st.service.eb).0 ≡ some e
            → is_alive e st.service.alive ≡ false)
        → net_event_accept lib (on_accept xor_keys rand rand' buf) fd st.service st.server
          ≡ some (service, server)
        → Step st (record { service = service; server = server })
    reads :
        (allocated : Bool) (fuel fd : ℕ) (recv : ℕ → List ℕ) (server : Server)
        → on_read crc32_table allocated fuel recv fd st.server ≡ some (true, server)
        → Step st (record st { server = server })
    writes :
        (fuel fd : ℕ) (send : List ℕ → ℕ) (sent : Bool) (service : Service Base) (server : Server)
        → on_write fuel send fd st.server ≡ some (true, sent, server)
        → (if sent then del_write_event lib fd st.service else some st.service) ≡ some service
        → Step st (record { service = service; server = server })
    calls :
        (c : Call) (at : ℕ) (s s' : NetSession) (service : Service Base)
        (sessions : List NetSession)
        → get_elem? st.server.malloc_session at ≡ some s
        → call lib c s st.service ≡ some (s', service)
        → store_elem st.server.malloc_session at s' ≡ some sessions
        → Step st
            (record { service = service; server = record st.server { malloc_session = sessions } })

  pub data Reach (st : LoopState Base) : LoopState Base → Type 0 where
    here : Reach st st
    next : {st' st'' : LoopState Base} → Reach st st' → Step st' st'' → Reach st st''
