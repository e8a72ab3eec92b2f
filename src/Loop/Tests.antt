-- ===== src/Loop/Tests.antt =====
-- The theorems on the event loop at concrete servers.
use leo_net.Base.{ℕ, ◌+◌, ◌≤◌, ◌≡◌, ◌⊎◌, refl, true, Option, none, some, [], ◌∷◌, arith}
use leo_net.Base.Lists.{get_elem?, replicate, length-replicate}
use leo_net.Base.Memory.{store_block, splice, store_elem}
use leo_net.Base.Endian.{Small-IsBytes, replicate-IsBytes}
use leo_net.Ring.{RingBuffer, empty, write_at, seek_write, peek_read}
use leo_net.Ring.Valid
use leo_net.Queue.{Queue}
use leo_net.Queue.Valid.{IsValid}
use leo_net.Message.{NetMessage}
use leo_net.Protocol.{AboutCrypt}
use leo_net.Protocol.Key.Sent.{IsKeys, fresh}
use leo_net.Sessions.{find, get_one_session}
use leo_net.Sessions.Map.{Distinct}
use leo_net.Sessions.Pool.{occurs}
use leo_net.Server.{NetSession, Server, max_queue_len}
use leo_net.Server.Read.{on_read, read_session, read_loop}
use leo_net.Server.Working.{IsWorking}
use leo_net.Service.{Libevent, new_service, no_events, net_events_length}
use leo_net.Service.Wired.{replicate-IsWired}
use leo_net.Loop.{LoopState, Reach, here, next, reads}
use leo_net.Loop.Claimed.{IsLost, on_accept_claimed}
use leo_net.Server.Accept.{on_accept}
use leo_net.Server.Accept.Claims.{Accepted}
use leo_net.Loop.Owners.{holders}
use leo_net.Loop.Kept.{cons-AllWorking, AllWorking, IsServer}
use leo_net.Loop.Reached.{IsLoop, Reach-IsLoop}
use leo_net.Loop.Apart.{on_read_apart}

-- An event is its number, a base the next number.
abbrev numbering : Libevent ℕ
numbering = record {
  event_new = λ fd events next. (some next, next + 1);
  event_add = λ e next. next;
  event_del = λ e next. next;
}

abbrev some_keys : AboutCrypt
some_keys = record {
  sequence_id = 0;
  session_key = 0;
  xor_key = replicate 17 1;
  swap_key = replicate 5 0;
}

some_keys-IsKeys : IsKeys some_keys
some_keys-IsKeys = record {
  xor_long = refl;
  swap_long = refl;
  xor_bytes = Small-IsBytes (replicate 17 1) (omega arith);
  swap_bytes = Small-IsBytes (replicate 5 0) (omega arith);
}

abbrev no_messages : Queue (Option NetMessage)
no_messages = record { queue = replicate 128 none; push_index = 0; pop_index = 0 }

no_messages-IsValid : IsValid max_queue_len no_messages
no_messages-IsValid = record {
  exponent = 7;
  power = refl;
  small = omega arith;
  slots = refl;
  push_word = omega arith;
  pop_word = omega arith;
  held = omega arith;
}

-- Two sockets with a session each; a byte comes in on the first.
abbrev small : ℕ → RingBuffer
small got = record { buffer_size = 8; ring_buffer = 9 ∷ replicate 7 0; write_p = got; read_p = 0 }

small-IsValid : (got : ℕ) → got ≤ 1 → Valid.IsValid (small got)
small-IsValid got h = record {
  exponent = 3;
  power = refl;
  small = omega arith;
  storage = refl;
  write_word = omega arith;
  read_word = omega arith;
  held = omega arith;
}

abbrev quiet : ℕ → NetSession
quiet got = record {
  socket = 5;
  session_id = 0;
  crypt = some_keys;
  read_buffer = small got;
  write_buffer = small 0;
  read_queue = no_messages;
  write_queue = no_messages;
}

quiet-IsWorking : IsWorking (quiet 0)
quiet-IsWorking = record {
  session = record {
    read_ring = small-IsValid 0 (omega arith);
    write_ring = small-IsValid 0 (omega arith);
    read_messages = no_messages-IsValid;
    write_messages = no_messages-IsValid;
  };
  keys = some_keys-IsKeys;
}

abbrev two : ℕ → Server
two got = record {
  manager = record { session_id = 0; vct_sessions = []; map_sessions = (5, 0) ∷ (6, 1) ∷ [] };
  malloc_session = quiet got ∷ quiet 0 ∷ [];
}

two-working : AllWorking (two 0).malloc_session
two-working =
    cons-AllWorking (quiet 0) (quiet 0 ∷ []) quiet-IsWorking
      (cons-AllWorking (quiet 0) [] quiet-IsWorking (λ i s e. absurd (ground (arith, e))))

two-IsServer : IsServer (two 0)
unfolding Distinct find occurs holders
two-IsServer = record {
  owned = record {
    distinct = (refl, (refl, _));
    once = λ x. ground arith;
    inside = λ x h. ground (arith, h);
  };
  working = two-working;
}

one_byte : on_read [] true 4 (λ room. 9 ∷ []) 5 (two 0) ≡ some (true, two 1)
unfolding on_read read_session read_loop get_one_session find store_block splice store_elem
    seek_write write_at peek_read empty
one_byte = refl

on_read_apart_example :
    ((two 1).manager ≡ (two 0).manager)
    × (get_elem? (two 1).malloc_session 1 ≡ get_elem? (two 0).malloc_session 1)
unfolding get_one_session find
on_read_apart_example =
    on_read_apart [] true 4 (λ room. 9 ∷ []) (two 0) two-IsServer 5 6 1 (true, two 1) one_byte
      (λ e. omega (arith, e)) refl

-- That byte from a fresh table of events on.
abbrev begun : ℕ → LoopState ℕ
begun got = record { service = new_service 1; server = two got }

begun-IsLoop : IsLoop (begun 0)
begun-IsLoop = record {
  server = two-IsServer;
  wired = replicate-IsWired net_events_length 1 [];
  table = length-replicate net_events_length no_events;
}

Reach-begun : Reach numbering (replicate 4352 1) [] (begun 0) (begun 1)
Reach-begun = next here (reads true 4 5 (λ room. 9 ∷ []) (two 1) one_byte)

Reach-IsLoop_example : IsLoop (begun 1)
Reach-IsLoop_example =
    Reach-IsLoop numbering (replicate 4352 1) [] (length-replicate {A = ℕ} 4352 1)
      (replicate-IsBytes 4352 1 (omega arith)) Reach-begun begun-IsLoop

-- The socket 5 has the first of two sessions, and connects again.
abbrev once_more : Server
once_more = record {
  manager = record { session_id = 0; vct_sessions = 1 ∷ []; map_sessions = (5, 0) ∷ [] };
  malloc_session = quiet 0 ∷ quiet 0 ∷ [];
}

once_more-IsServer : IsServer once_more
unfolding Distinct find occurs holders
once_more-IsServer = record {
  owned = record {
    distinct = (refl, _);
    once = λ x. ground arith;
    inside = λ x h. ground (arith, h);
  };
  working = two-working;
}

on_accept_claimed_example :
    (a : Accepted once_more 5 1 []
      (record (quiet 0) {
        socket = 5;
        crypt = fresh (replicate 4352 1) 1804289383 846930886 some_keys;
      })
      (on_accept (replicate 4352 1) 1804289383 846930886 (replicate 32 0) 5 once_more))
    × ((find 5 once_more.manager.map_sessions ≡ none) ⊎ IsLost 1 a.manager)
on_accept_claimed_example =
    on_accept_claimed once_more once_more-IsServer 1 [] refl (replicate 4352 1)
      (length-replicate {A = ℕ} 4352 1) (replicate-IsBytes 4352 1 (omega arith)) 1804289383
      846930886 (replicate 32 0) (omega arith) (replicate-IsBytes 32 0 (omega arith)) 5 refl
      (quiet 0) refl
