-- ===== src/Server/Session/Calls.antt =====
-- A session (src/leo_net_session.h) through any calls of its methods.
use leo_net.Base.{
  ℕ, ◌≡◌, refl, if◌then◌else◌, Option-cases, inl, inr, Option, none, some, List, [], ◌∷◌, arith,
  ◌>>=◌,
}
use leo_net.Base.Lists.{length}
use leo_net.Message.{NetMessage}
use leo_net.Ring.{empty}
use leo_net.Ring.Valid
use leo_net.Ring.Fifo.{peek_read_lem}
use leo_net.Queue.Valid.{IsValid}
use leo_net.Queue.Fifo.{push_back_lem, pop_front_lem}
use leo_net.Server.{NetSession, max_queue_len, push_to_writequeue, fetch_from_writequeue}
use leo_net.Server.Session.{
  push_to_readqueue, fetch_from_readqueue, preread_message_size, set_session_id,
}
use leo_net.Server.Accept.{set_socket}
use leo_net.Service.{Libevent, Service, add_write_event}
use leo_net.Service.Table.{IsTable, same-IsTable, if_add-IsTable}

-- The invariant.
pub record IsSession (s : NetSession) : Type 0 where
  pub read_ring : Valid.IsValid s.read_buffer
  pub write_ring : Valid.IsValid s.write_buffer
  pub read_messages : IsValid max_queue_len s.read_queue
  pub write_messages : IsValid max_queue_len s.write_queue

pub data Call : Type 0 where
  push_read : Option NetMessage → Call
  fetch_read : Option NetMessage → Call
  push_write : Option NetMessage → Call
  fetch_write : Option NetMessage → Call
  preread : List ℕ → Call
  socket : ℕ → Call
  session_id : ℕ → Call

-- The session and the service that a call leaves; `preread` fills the whole buffer it is given.
unfoldable pub call :
    {Base : Type 0}
    → Libevent Base
    → Call
    → NetSession
    → Service Base
    → Option (NetSession × Service Base)
call lib (push_read nm) s v = do done ← push_to_readqueue nm s; some (done.1, v)
call lib (fetch_read nm) s v = do done ← fetch_from_readqueue nm s; some (done.1, v)
call lib (push_write nm) s v = do done ← push_to_writequeue lib nm s v; some (done.1, done.2)
call lib (fetch_write nm) s v = do done ← fetch_from_writequeue nm s; some (done.1, v)
call lib (preread buf) s v = do done ← preread_message_size buf (length buf) s; some (done.2, v)
call lib (socket fd) s v = some (set_socket s fd, v)
call lib (session_id id) s v = some (set_session_id s id, v)

unfoldable pub calls :
    {Base : Type 0}
    → Libevent Base
    → List Call
    → NetSession
    → Service Base
    → Option (NetSession × Service Base)
calls lib [] s v = some (s, v)
calls lib (c ∷ cs) s v = do done ← call lib c s v; calls lib cs done.0 done.1

pub parts-IsSession :
    {s : NetSession}
    → Valid.IsValid s.read_buffer
    → Valid.IsValid s.write_buffer
    → IsValid max_queue_len s.read_queue
    → IsValid max_queue_len s.write_queue
    → IsSession s
parts-IsSession r w rq wq = record {
  read_ring = r;
  write_ring = w;
  read_messages = rq;
  write_messages = wq;
}

module _ {Base : Type 0} (lib : Libevent Base) where
  -- What a call does to the service.
  unfoldable pub woken : Call → NetSession → Service Base → Option (Service Base)
  woken (push_read nm) s v = some v
  woken (fetch_read nm) s v = some v
  woken (push_write nm) s v =
      if empty s.write_buffer then add_write_event lib s.socket v else some v
  woken (fetch_write nm) s v = some v
  woken (preread buf) s v = some v
  woken (socket fd) s v = some v
  woken (session_id id) s v = some v

  -- The socket that a call leaves.
  unfoldable pub socket_after : Call → NetSession → ℕ
  socket_after (push_read nm) s = s.socket
  socket_after (fetch_read nm) s = s.socket
  socket_after (push_write nm) s = s.socket
  socket_after (fetch_write nm) s = s.socket
  socket_after (preread buf) s = s.socket
  socket_after (socket fd) s = fd
  socket_after (session_id id) s = s.socket

  -- A call runs if its call of `add_write_event` does, and keeps the invariant and the keys.
  pub call-IsSession :
      (c : Call) (s : NetSession) (v : Service Base)
      → IsSession s
      → (s' : NetSession) × (call lib c s v ≡ (woken c s v >>= λ v'. some (s', v')))
        × IsSession s'
        × (s'.crypt ≡ s.crypt)
        × (s'.socket ≡ socket_after c s)
  unfolding call woken socket_after push_to_readqueue fetch_from_readqueue push_to_writequeue
      fetch_from_writequeue preread_message_size
  call-IsSession (push_read nm) s v i =
      let (q, runs, valid, _, _) = push_back_lem none i.read_messages nm in
      (
        record s { read_queue = q },
        rw runs refl,
        parts-IsSession i.read_ring i.write_ring valid i.write_messages,
        refl,
        refl,
      )
  call-IsSession (fetch_read nm) s v i =
      let (q, runs, valid, _, _) = pop_front_lem none i.read_messages nm in
      (
        record s { read_queue = q },
        rw runs refl,
        parts-IsSession i.read_ring i.write_ring valid i.write_messages,
        refl,
        refl,
      )
  call-IsSession (push_write nm) s v i =
      let (q, runs, valid, _, _) = push_back_lem none i.write_messages nm in
      (
        record s { write_queue = q },
        elim (Option-cases
            (if empty s.write_buffer then add_write_event lib s.socket v else some v)) [
              | inl fails ↦ rw fails refl
              | inr (v', woke) ↦ rw (woke, runs) refl
            ],
        parts-IsSession i.read_ring i.write_ring i.read_messages valid,
        refl,
        refl,
      )
  call-IsSession (fetch_write nm) s v i =
      let (q, runs, valid, _, _) = pop_front_lem none i.write_messages nm in
      (
        record s { write_queue = q },
        rw runs refl,
        parts-IsSession i.read_ring i.write_ring i.read_messages valid,
        refl,
        refl,
      )
  call-IsSession (preread buf) s v i =
      (s, rw (peek_read_lem i.read_ring buf (length buf) (omega arith)) refl, i, refl, refl)
  call-IsSession (socket fd) s v i = (
    set_socket s fd,
    refl,
    parts-IsSession i.read_ring i.write_ring i.read_messages i.write_messages,
    refl,
    refl,
  )
  call-IsSession (session_id id) s v i = (
    set_session_id s id,
    refl,
    parts-IsSession i.read_ring i.write_ring i.read_messages i.write_messages,
    refl,
    refl,
  )

  pub woken-IsTable :
      (c : Call) (s : NetSession) (v v' : Service Base) → woken c s v ≡ some v' → IsTable v v'
  unfolding woken
  woken-IsTable (push_read nm) s v v' e = same-IsTable lib v v' e
  woken-IsTable (fetch_read nm) s v v' e = same-IsTable lib v v' e
  woken-IsTable (push_write nm) s v v' e = if_add-IsTable lib (empty s.write_buffer) s.socket v v' e
  woken-IsTable (fetch_write nm) s v v' e = same-IsTable lib v v' e
  woken-IsTable (preread buf) s v v' e = same-IsTable lib v v' e
  woken-IsTable (socket fd) s v v' e = same-IsTable lib v v' e
  woken-IsTable (session_id id) s v v' e = same-IsTable lib v v' e
