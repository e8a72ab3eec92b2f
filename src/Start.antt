-- ===== src/Start.antt =====
-- The function `main` (src/main.c) up to libevent's loop. The results of the system's calls are
-- parameters, and so are libevent, what the memory of the sessions holds and the array of the
-- checksum's table, which the source declares with 255 words. `none` is an access out
-- of range or a failed assertion; a `main` that returns -1 gives no state.
pub mod Claims
mod Tests
use leo_net.Base.{
  ℕ, zero, suc, ◌+◌, ◌-◌, ◌^◌, true, ◌||◌, ◌==◌, leb, Option, none, some, List, [], ◌∷◌,
  if◌then◌else◌, ◌>>=◌,
}
use leo_net.Message.{NetMessage}
use leo_net.Queue.{Queue}
use leo_net.Xor.Keys.{initial_xor_keys}
use leo_net.Crc.{initial_crc32_table}
use leo_net.Protocol.{AboutCrypt}
use leo_net.Sessions.{SessionManager, max_session, new_manager, init_sessions}
use leo_net.Server.{NetSession, Server}
use leo_net.Server.Session.{new_session}
use leo_net.Singleton.{Pointer, null, create_singleton, get_instance, object}
use leo_net.Service.{Libevent, Service, reading, new_service, net_event_create, net_event_add}

-- What `net_socket_open`, `net_socket_bind`, `net_socket_listen` and `net_service_create` give.
pub record System (Base : Type 0) : Type 0 where
  pub listen_fd : ℕ
  pub bound : ℕ
  pub listening : ℕ
  pub eb : Option Base

-- The allocators, and what the memory of each session holds.
pub record Memory : Type 0 where
  pub new_char : ℕ → ℕ → List ℕ
  pub new_char' : ℕ → ℕ → List ℕ
  pub crypt : ℕ → AboutCrypt
  pub read_queue : ℕ → Queue (Option NetMessage)
  pub write_queue : ℕ → Queue (Option NetMessage)

-- `new net_session[...]`, from session `i` on.
unfoldable pub new_sessions : Memory → ℕ → ℕ → Option (List NetSession)
new_sessions memory zero i = some []
new_sessions memory (suc left) i = do
  s ←
      new_session (memory.new_char i) (memory.new_char' i) (memory.crypt i) (memory.read_queue i)
        (memory.write_queue i)
  rest ← new_sessions memory left (i + 1)
  some (s ∷ rest)

-- What `event_base_dispatch` starts from.
pub record Started (Base : Type 0) : Type 0 where
  pub xor_keys : List ℕ
  pub crc32_table : List ℕ
  pub server : Server
  pub service : Service Base

module _ {Base : Type 0} (lib : Libevent Base) where
  -- A null event ends `main`.
  unfoldable pub add_event : Option ℕ → Service Base → Option (Option (Service Base))
  add_event none v = some none
  add_event (some e) v = do added ← net_event_add lib (some e) v; some (some added)

  -- The event of the listening socket.
  unfoldable pub listen_event : ℕ → Service Base → Option (Option (Service Base))
  listen_event listen_fd v =
      let (e, v') = net_event_create lib listen_fd reading v in add_event e v'

module _ {Base : Type 0} (lib : Libevent Base) (rand : ℕ → ℕ) (memory : Memory) where
  unfoldable pub main : System Base → List ℕ → List ℕ → Option (Option (Started Base))
  main system xor_keys crc32_table =
      if (system.listen_fd == 2 ^ 32 - 1)
        || (leb (2 ^ 31) system.bound || leb (2 ^ 31) system.listening)
      then some none
      else (do
        xor_keys' ← initial_xor_keys rand xor_keys
        crc32_table' ← initial_crc32_table crc32_table
        pointer ← create_singleton (some new_manager) null
        got ← get_instance pointer
        made ← object got
        sessions ← new_sessions memory max_session 0
        let manager = (init_sessions true made).1
        elim system.eb [
          | none ↦ some none
          | some eb ↦ do
            event ← listen_event lib system.listen_fd (new_service eb)
            elim event [
              | none ↦ some none
              | some service ↦ some (
                  some (record {
                    xor_keys = xor_keys';
                    crc32_table = crc32_table';
                    server = record { manager = manager; malloc_session = sessions };
                    service = service;
                  }))
            ]
        ])
