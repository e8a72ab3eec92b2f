-- ===== src/Server/Tests.antt =====
-- Runs of the handler's model, and its theorems at a concrete session.
use leo_net.Base.{
  ℕ, ◌+◌, ◌<◌, ◌≤◌, ◌≡◌, ◌⊎◌, refl, true, false, sub32, Option, none, some, List, [], ◌∷◌, arith,
  ◌>>=◌,
}
use leo_net.Base.Lists.{length, length-replicate, replicate}
use leo_net.Ring.{RingBuffer, used}
use leo_net.Queue.Valid.{IsValid}
use leo_net.Server.{
  NetSession, max_queue_len, push_to_writequeue, fetch_from_writequeue, send_buffer, write_session,
}
use leo_net.Ring.Valid
use leo_net.Server.Read.Ends.{Ended, read_loop_ends}
use leo_net.Message.{NetMessage}
use leo_net.Queue.{Queue}
use leo_net.Server.Session.{new_session}
use leo_net.Server.Session.Calls.{
  Call, push_read, fetch_read, push_write, fetch_write, socket, preread,
}
use leo_net.Server.Session.Built.{new_session_lem}
use leo_net.Service.{Libevent, Service, no_events, add_write_event}
use leo_net.Server.Read.{read_loop}
use leo_net.Server.Write.{queued, write_session_lem}

abbrev pub no_bytes : RingBuffer
no_bytes = record { buffer_size = 4096; ring_buffer = replicate 4096 0; write_p = 0; read_p = 0 }

-- One message is queued to be written.
abbrev pub one_queued : NetSession
one_queued = record {
  socket = 5;
  session_id = 1;
  crypt = record {
    sequence_id = 0;
    session_key = 7;
    xor_key = replicate 17 1;
    swap_key = replicate 5 0;
  };
  read_buffer = no_bytes;
  write_buffer = no_bytes;
  read_queue = record { queue = replicate 128 none; push_index = 0; pop_index = 0 };
  write_queue = record { queue = replicate 128 none; push_index = 1; pop_index = 0 };
}

one_queued-IsValid : IsValid max_queue_len one_queued.write_queue
one_queued-IsValid = record {
  exponent = 7;
  power = refl;
  small = omega arith;
  slots = refl;
  push_word = omega arith;
  pop_word = omega arith;
  held = omega arith;
}

abbrev send_all : List ℕ → ℕ
send_all bytes = length bytes

write_session_lem_example :
    ((queued one_queued ≡ [])
      × (write_session 129 send_all one_queued
          ≡ (send_buffer send_all one_queued >>= λ sent. some (true, sent.0, sent.1))))
    ⊎ ((0 < length (queued one_queued))
        × ((s' : NetSession) × (fetch_from_writequeue none one_queued ≡ some (true, s'))
            × (length (queued s') + 1 ≡ length (queued one_queued)))
        × (write_session 129 send_all one_queued ≡ none))
write_session_lem_example = write_session_lem one_queued one_queued-IsValid 128 send_all

-- Four bytes have come in, the first two announcing two.
abbrev four_read : NetSession
four_read = record one_queued {
  read_buffer = record {
    buffer_size = 4096;
    ring_buffer = 5 ∷ 0 ∷ 1 ∷ 1 ∷ replicate 4092 0;
    write_p = 4;
    read_p = 0;
  };
}

four_read-IsValid : Valid.IsValid four_read.read_buffer
four_read-IsValid = record {
  exponent = 12;
  power = refl;
  small = omega arith;
  storage = refl;
  write_word = omega arith;
  read_word = omega arith;
  held = omega arith;
}

read_loop_ends_example : Ended (used four_read.read_buffer) (read_loop [] true 5 four_read)
read_loop_ends_example = read_loop_ends [] true 5 four_read four_read-IsValid (omega arith)

-- Two sessions, both free; no socket has one.
pub no_bytes-IsValid : Valid.IsValid no_bytes
no_bytes-IsValid = record {
  exponent = 12;
  power = refl;
  small = omega arith;
  storage = refl;
  write_word = omega arith;
  read_word = omega arith;
  held = omega arith;
}

pub empty_queue-IsValid : IsValid max_queue_len one_queued.read_queue
empty_queue-IsValid = record {
  exponent = 7;
  power = refl;
  small = omega arith;
  slots = refl;
  push_word = omega arith;
  pop_word = omega arith;
  held = omega arith;
}

-- An event is its number, a base the next number; the socket 5 has its two events.
abbrev numbering : Libevent ℕ
numbering = record {
  event_new = λ fd events next. (some next, next + 1);
  event_add = λ e next. next;
  event_del = λ e next. next;
}

abbrev with_five : Service ℕ
with_five = record {
  net_events =
      no_events
      ∷ no_events
      ∷ no_events
      ∷ no_events
      ∷ no_events
      ∷ record { ev_read = some 1; ev_write = some 2 }
      ∷ [];
  eb = 3;
  alive = 2 ∷ 1 ∷ [];
}

abbrev some_calls : List Call
some_calls =
    push_read none
    ∷ push_write none
    ∷ socket 3
    ∷ push_write none
    ∷ fetch_write none
    ∷ preread (0 ∷ 0 ∷ [])
    ∷ fetch_read none
    ∷ []

abbrev zeroed : ℕ → List ℕ
zeroed n = replicate n 0

-- What the memory of a write queue may hold, with counters far apart.
abbrev left_over : Queue (Option NetMessage)
left_over = record { queue = replicate 128 none; push_index = 1000; pop_index = 0 }

new_session_lem_example :
    (s : NetSession) × (new_session zeroed zeroed one_queued.crypt left_over left_over ≡ some s)
    × (Valid.IsValid s.read_buffer × (Valid.contents s.read_buffer ≡ []))
    × (Valid.IsValid s.write_buffer × (Valid.contents s.write_buffer ≡ []))
    × ((s.crypt ≡ one_queued.crypt) × (s.read_queue ≡ left_over) × (s.write_queue ≡ left_over))
    × (128 ≤ sub32 left_over.push_index left_over.pop_index
        → (nm : Option NetMessage)
        → push_to_writequeue numbering nm s with_five
          ≡ (add_write_event numbering 0 with_five >>= λ v'. some (false, s, v')))
new_session_lem_example =
    new_session_lem zeroed zeroed (λ n. length-replicate {A = ℕ} n 0)
      (λ n. length-replicate {A = ℕ} n 0) one_queued.crypt left_over left_over numbering with_five
