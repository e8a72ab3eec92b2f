-- ===== src/Server/Session/Sequences.antt =====
-- Sequences of calls of a session's methods (src/leo_net_session.h), with the table of events in which
-- `add_write_event` looks.
use leo_net.Base.{ℕ, ◌<◌, ◌≡◌, List, [], ◌∷◌}
use leo_net.Server.Session.{}
use leo_net.Service.{Service}
use leo_net.Server.Session.Calls.{Call, socket}

-- Calls that give a session no socket from `count` on.
unfoldable pub HasSockets : ℕ → List Call → Type 0
HasSockets count [] = Unit {0}
HasSockets count (c ∷ cs) = ((fd : ℕ) → c ≡ socket fd → fd < count) × HasSockets count cs
