-- ===== src/Server/Accept.antt =====
-- The handler `on_accept` (src/main.c). `junk` is what the local buffer holds before it is written;
-- what the handler prints is left out.
pub mod Claims
use leo_net.Base.{ℕ, Option, none, some, List, ◌>>=◌}
use leo_net.Base.Lists.{get_elem?}
use leo_net.Base.Memory.{store_elem}
use leo_net.Sessions.{claim_one_session, insert_session}
use leo_net.Protocol.Key.{send_key}
use leo_net.Server.{NetSession, Server}

-- `net_session::set_socket`
abbrev pub set_socket : NetSession → ℕ → NetSession
set_socket s fd = record s { socket = fd }

-- What is done with the claimed session `at`; the packet that `send_key` makes is not sent.
unfoldable pub start_session : List ℕ → ℕ → ℕ → List ℕ → ℕ → ℕ → Server → Option Server
start_session xor_keys rand rand' junk fd at server = do
  s ← get_elem? server.malloc_session at
  inserted ← insert_session fd (some at) server.manager
  sent ← send_key xor_keys rand rand' s.crypt junk
  sessions ← store_elem server.malloc_session at (record (set_socket s fd) { crypt = sent.1 })
  some (record { manager = inserted.1; malloc_session = sessions })

unfoldable pub on_accept : List ℕ → ℕ → ℕ → List ℕ → ℕ → Server → Option Server
on_accept xor_keys rand rand' junk fd server =
    let (claimed, manager) = claim_one_session server.manager in
    elim claimed [
      | none ↦ some (record server { manager = manager })
      | some at ↦ start_session xor_keys rand rand' junk fd at (record server { manager = manager })
    ]
