-- ===== src/Server/Read/Tests.antt =====
-- The theorems on what comes in at concrete sessions.
use leo_net.Base.{
  ltb, ◌++◌, ℕ, ◌+◌, ◌<◌, ◌≤◌, ◌≡◌, ◌⊎◌, refl, true, none, some, List, [], ◌∷◌, arith,
  if◌then◌else◌, ◌>>=◌,
}
use leo_net.Base.Lists.{take, drop, length, replicate}
use leo_net.Ring.{write_at, read_at, kfifo_put}
use leo_net.Server.{NetSession, max_queue_len}
use leo_net.Ring.Valid
use leo_net.Base.Endian.{Small-IsBytes}
use leo_net.Message.{new_message}
use leo_net.Server.Session.Calls.{}
use leo_net.Base.Endian.{load32, store32}
use leo_net.Base.Memory.{load_block, store_block, slice, splice}
use leo_net.Xor.{xor_crypt, xor_sections, xor_remains}
use leo_net.Crc.Check.{reflected_table, reflected_table-IsTable}
use leo_net.Protocol.Receive.{after}
use leo_net.Server.Read.{read_loop, take_packet, read_session}
use leo_net.Server.Read.Received.{read_session_lem}
use leo_net.Server.Read.Packet.{received, take_packet_wrapped, take_packet_taken}
use leo_net.Server.Tests.{no_bytes, one_queued, no_bytes-IsValid, empty_queue-IsValid}

-- Two bytes come in where there is room for all.
read_session_lem_example :
    let bytes : List ℕ = 3 ∷ 4 ∷ [] in
    ((write_at no_bytes + 2 ≤ 4096)
      × (read_session [] true 5 (λ room. bytes) one_queued ≡ (
          kfifo_put no_bytes bytes 2 >>= λ t.
          read_loop [] true 5 (record one_queued { read_buffer = t.ring }))))
    ⊎ ((4096 < write_at no_bytes + 2) × (read_session [] true 5 (λ room. bytes) one_queued ≡ none))
read_session_lem_example =
    read_session_lem [] true 5 (λ room. 3 ∷ 4 ∷ []) one_queued no_bytes-IsValid (omega arith)
      (omega arith)

-- A packet of six bytes starts four bytes before the end of the storage.
abbrev at_end : NetSession
at_end = record one_queued {
  read_buffer = record {
    buffer_size = 8;
    ring_buffer = 1 ∷ 2 ∷ 3 ∷ 4 ∷ 5 ∷ 6 ∷ 7 ∷ 8 ∷ [];
    write_p = 10;
    read_p = 4;
  };
}

at_end-IsValid : Valid.IsValid at_end.read_buffer
at_end-IsValid = record {
  exponent = 3;
  power = refl;
  small = omega arith;
  storage = refl;
  write_word = omega arith;
  read_word = omega arith;
  held = omega arith;
}

take_packet_wrapped_example : take_packet [] true 4 at_end ≡ none
unfolding read_at
take_packet_wrapped_example =
    take_packet_wrapped [] true 4 at_end at_end-IsValid (omega arith) (omega arith)

-- A packet of six bytes behind the header, encrypted with a key of ones, and nothing else.
abbrev plain : List ℕ
plain = 2 ∷ 0 ∷ 0 ∷ 0 ∷ 7 ∷ 8 ∷ 9 ∷ 6 ∷ 0 ∷ 0 ∷ 0 ∷ 0 ∷ 0 ∷ 0 ∷ []

abbrev masked : List ℕ
masked = 3 ∷ 1 ∷ 1 ∷ 1 ∷ 6 ∷ 9 ∷ 9 ∷ 6 ∷ 0 ∷ 0 ∷ 0 ∷ 0 ∷ 0 ∷ 0 ∷ []

abbrev one_packet : NetSession
one_packet = record one_queued {
  read_buffer = record { buffer_size = 16; ring_buffer = 1 ∷ 0 ∷ masked; write_p = 8; read_p = 0 };
}

one_packet-IsValid : Valid.IsValid one_packet.read_buffer
one_packet-IsValid = record {
  exponent = 4;
  power = refl;
  small = omega arith;
  storage = refl;
  write_word = omega arith;
  read_word = omega arith;
  held = omega arith;
}

masks : xor_crypt plain 6 one_packet.crypt.xor_key ≡ some (1, masked)
unfolding xor_crypt xor_sections xor_remains load32 store32 load_block store_block slice splice
masks = refl

take_packet_taken_example :
    let room = ltb (length (received one_packet)) max_queue_len in
    (s' : NetSession) × (take_packet reflected_table true 6 one_packet ≡ some s')
    × (s'.crypt ≡ after reflected_table one_packet.crypt (1 ∷ 0 ∷ plain) 6)
    × (received s'
        ≡ (if room then received one_packet ++ (some new_message ∷ []) else received one_packet))
    × (Valid.contents s'.read_buffer ≡ drop 6 (take 8 (1 ∷ 0 ∷ plain)))
unfolding read_at
take_packet_taken_example =
    take_packet_taken reflected_table-IsTable true 6 one_packet one_packet-IsValid
      empty_queue-IsValid (Small-IsBytes (replicate 17 1) (omega arith)) (omega arith) 1 0 plain
      masked (Small-IsBytes (1 ∷ 0 ∷ plain) (omega arith)) (omega arith) (omega arith) refl masks
      (omega arith) (omega arith)
