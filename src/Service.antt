-- ===== src/Service.antt =====
-- `src/leo_net_service.c`: the table of events by socket, the handlers that libevent calls, and the
-- two methods of `net_session` (src/leo_net_session.cpp) that go through the table. libevent is a
-- parameter; an event is the address that `event_new` gives, none where that is null. An event may be
-- handed to libevent while it is alive, that is from `event_new` until `free`; anything else is
-- `none`, and so is an access out of range.
pub mod Accept
pub mod Wired
pub mod Table
pub mod Sockets
mod Tests
use leo_net.Base.{
  ℕ, ◌^◌, bit_or, Bool, true, false, ◌||◌, Option, none, some, List, [], ◌∷◌, leb, ◌==◌,
  if◌then◌else◌, ◌>>=◌,
}
use leo_net.Base.Lists.{get_elem?, replicate}
use leo_net.Base.Memory.{store_elem}

pub record NetRwEvent : Type 0 where
  pub ev_read : Option ℕ
  pub ev_write : Option ℕ

-- What the source calls of libevent, on an `event_base`.
pub record Libevent (Base : Type 0) : Type 0 where
  pub event_new : ℕ → ℕ → Base → Option ℕ × Base
  pub event_add : ℕ → Base → Base
  pub event_del : ℕ → Base → Base

-- The table, the base, and the events that are alive.
pub record Service (Base : Type 0) : Type 0 where
  pub net_events : List NetRwEvent
  pub eb : Base
  pub alive : List ℕ

abbrev pub net_events_length : ℕ
net_events_length = 65535

-- `EV_READ | EV_PERSIST` and `EV_WRITE | EV_PERSIST`
abbrev pub reading : ℕ
reading = bit_or 0x02 0x10

abbrev pub writing : ℕ
writing = bit_or 0x04 0x10

unfoldable pub is_alive : ℕ → List ℕ → Bool
is_alive e [] = false
is_alive e (other ∷ rest) = (other == e) || is_alive e rest

unfoldable pub without : ℕ → List ℕ → List ℕ
without e [] = []
without e (other ∷ rest) =
    let rest' = without e rest in if other == e then rest else (other ∷ rest')

abbrev pub is_null : Option ℕ → Bool
is_null e = elim e [ none ↦ true | some _ ↦ false ]

abbrev pub with_event : Option ℕ → List ℕ → List ℕ
with_event e alive = elim e [ none ↦ alive | some event ↦ event ∷ alive ]

-- An entry of zero bytes.
abbrev pub no_events : NetRwEvent
no_events = record { ev_read = none; ev_write = none }

-- Before the first connection.
abbrev pub new_service : {Base : Type 0} → Base → Service Base
new_service eb = record { net_events = replicate net_events_length no_events; eb = eb; alive = [] }

module _ {Base : Type 0} (lib : Libevent Base) where
  unfoldable pub net_event_create : ℕ → ℕ → Service Base → Option ℕ × Service Base
  net_event_create fd events v =
      let (e, eb) = lib.event_new fd events v.eb in
      (e, record v { eb = eb; alive = with_event e v.alive })

  unfoldable pub net_event_add : Option ℕ → Service Base → Option (Service Base)
  net_event_add none v = none
  net_event_add (some e) v =
      if is_alive e v.alive then some (record v { eb = lib.event_add e v.eb }) else none

  unfoldable pub net_event_del : Option ℕ → Service Base → Option (Service Base)
  net_event_del none v = none
  net_event_del (some e) v =
      if is_alive e v.alive then some (record v { eb = lib.event_del e v.eb }) else none

  -- `e ? free(e) : 0`
  unfoldable pub free_event : Option ℕ → Service Base → Service Base
  free_event none v = v
  free_event (some e) v = record v { alive = without e v.alive }

  -- The branch that frees the events unless there are two.
  unfoldable pub keep_both : Option ℕ → Option ℕ → Service Base → Service Base
  keep_both ev_read ev_write v =
      if is_null ev_read || is_null ev_write then free_event ev_write (free_event ev_read v) else v

  -- `fd` is what `accept` gives, an `int`'s bits; `accept_cb` works on the user's own state.
  unfoldable pub net_event_accept :
      {S : Type 0} → (ℕ → S → Option S) → ℕ → Service Base → S → Option (Service Base × S)
  net_event_accept accept_cb fd v s = if leb (2 ^ 31) fd then some (v, s) else (do
    let (ev_read, v₁) = net_event_create fd reading v
    let (ev_write, v₂) = net_event_create fd writing v₁
    net_events ← store_elem v₂.net_events fd (record { ev_read = ev_read; ev_write = ev_write })
    let v₃ = keep_both ev_read ev_write (record v₂ { net_events = net_events })
    v₄ ← net_event_add ev_read v₃
    s' ← accept_cb fd s
    some (v₄, s'))

  unfoldable pub net_service_get_evnets : ℕ → Service Base → Option NetRwEvent
  net_service_get_evnets fd v = get_elem? v.net_events fd

  -- `net_session::add_write_event`, of a session with the socket `fd`.
  unfoldable pub add_write_event : ℕ → Service Base → Option (Service Base)
  add_write_event fd v = do
    rw_events ← net_service_get_evnets fd v
    if is_null rw_events.ev_write then some v else net_event_add rw_events.ev_write v

  -- `net_session::del_write_event`
  unfoldable pub del_write_event : ℕ → Service Base → Option (Service Base)
  del_write_event fd v = do
    rw_events ← net_service_get_evnets fd v
    if is_null rw_events.ev_write then some v else net_event_del rw_events.ev_write v

-- The handlers for a socket that is ready: the user's callbacks, on the user's own state.
abbrev pub net_event_read : {S : Type 0} → (ℕ → S → Option S) → ℕ → S → Option S
net_event_read read_cb fd s = read_cb fd s

abbrev pub net_event_write : {S : Type 0} → (ℕ → S → Option S) → ℕ → S → Option S
net_event_write write_cb fd s = write_cb fd s
