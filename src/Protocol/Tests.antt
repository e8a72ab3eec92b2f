-- ===== src/Protocol/Tests.antt =====
-- Runs of the protocol model, and its theorems at concrete packets.
use leo_net.Base.{ℕ, ◌+◌, ◌<◌, ◌≤◌, ◌≡◌, ◌⊎◌, refl, some, List, [], ◌∷◌, arith}
use leo_net.Base.Lists.{replicate, length-replicate}
use leo_net.Base.Memory.{load_block, store_block, slice, splice}
use leo_net.Base.Endian.{
  IsBytes, Small-IsBytes, bytes4, bytes4-IsBytes, append-IsBytes, replicate-IsBytes, load32,
  store32, store16,
}
use leo_net.Message.{NetMessage}
use leo_net.Xor.{xor_crypt, xor_sections, xor_remains}
use leo_net.Crc.Check.{crc_fold, reflected_table, reflected_table-IsTable}
use leo_net.Protocol.{AboutCrypt, transform_message_to_buffer, transform_buffer_to_message}
use leo_net.Protocol.Send.{Sent, transform_message_to_buffer_lem}
use leo_net.Protocol.Key.{send_key, default_ecb}
use leo_net.Protocol.Key.Sent.{IsKeys, fresh, secret, packet, send_key_lem}
use leo_net.Des.{ecb_crypt, des_decrypt, device_error}
use leo_net.Protocol.Receive.{
  after, transform_buffer_to_message_lem, transform_buffer_to_message_replay,
}

abbrev keys : AboutCrypt
keys = record {
  sequence_id = 5;
  session_key = 7;
  xor_key = replicate 17 1;
  swap_key = replicate 5 0;
}

keys-IsBytes : IsBytes keys.xor_key
keys-IsBytes = Small-IsBytes (replicate 17 1) (omega arith)

abbrev short : NetMessage
short = record { id = 3; real_size = 2; buffer = 8 ∷ 9 ∷ replicate 1022 0 }

abbrev room : List ℕ
room = replicate 10 0

-- The first two bytes stay as they were.
send_short :
    transform_message_to_buffer keys short room 10
    ≡ some (8, 0 ∷ 0 ∷ 2 ∷ 1 ∷ 3 ∷ 1 ∷ 9 ∷ 8 ∷ 0 ∷ 0 ∷ [])
unfolding transform_message_to_buffer store16 store_block load_block slice splice xor_crypt
    xor_sections xor_remains load32 store32
send_short = refl

-- With the room that `on_write` passes, the data's own size, nothing is sent.
send_as_on_write : transform_message_to_buffer keys short room short.real_size ≡ some (0, room)
unfolding transform_message_to_buffer
send_as_on_write = refl

short-IsBytes : IsBytes short.buffer
short-IsBytes =
    append-IsBytes (8 ∷ 9 ∷ []) (replicate 1022 0) (Small-IsBytes (8 ∷ 9 ∷ []) (omega arith))
      (replicate-IsBytes 1022 0 (omega arith))

transform_message_to_buffer_lem_example :
    ((10 < 6 + short.real_size) × (transform_message_to_buffer keys short room 10 ≡ some (0, room)))
    ⊎ ((6 + short.real_size ≤ 10)
        × ((out : List ℕ) × (transform_message_to_buffer keys short room 10
              ≡ some (6 + short.real_size, out))
            × Sent keys short room out))
transform_message_to_buffer_lem_example =
    transform_message_to_buffer_lem keys keys-IsBytes (omega arith) short
      (record { whole = refl; inside = omega arith }) short-IsBytes room 10
      (Small-IsBytes room (omega arith)) (omega arith)

-- Number 5 masked with the session's key 7, and the checksum.
abbrev numbered : List ℕ
numbered = 2 ∷ 0 ∷ 0 ∷ 0 ∷ bytes4 (crc_fold reflected_table 0 (8 ∷ 0 ∷ 2 ∷ 0 ∷ 0 ∷ 0 ∷ []))

packet-IsBytes : IsBytes (8 ∷ 0 ∷ numbered)
packet-IsBytes =
    append-IsBytes (8 ∷ 0 ∷ 2 ∷ 0 ∷ 0 ∷ 0 ∷ [])
      (bytes4 (crc_fold reflected_table 0 (8 ∷ 0 ∷ 2 ∷ 0 ∷ 0 ∷ 0 ∷ [])))
      (Small-IsBytes (8 ∷ 0 ∷ 2 ∷ 0 ∷ 0 ∷ 0 ∷ []) (omega arith)) (bytes4-IsBytes _)

transform_buffer_to_message_lem_example :
    (mid : List ℕ) × (xor_crypt numbered 8 keys.xor_key ≡ some (1, mid))
    × (transform_buffer_to_message reflected_table keys short (8 ∷ 0 ∷ mid) 8
        ≡ some (0, after reflected_table keys (8 ∷ 0 ∷ numbered) 8, 8 ∷ 0 ∷ numbered))
transform_buffer_to_message_lem_example =
    transform_buffer_to_message_lem reflected_table reflected_table-IsTable keys.xor_key
      keys-IsBytes (omega arith) short 8 0 numbered packet-IsBytes 8 (omega arith) (omega arith)
      (omega arith) keys refl

transform_buffer_to_message_replay_example :
    (mid : List ℕ) × (ac' : AboutCrypt) × (transform_buffer_to_message reflected_table keys short
        (8 ∷ 0 ∷ mid)
        8
      ≡ some (0, ac', 8 ∷ 0 ∷ numbered))
    × (transform_buffer_to_message reflected_table ac' short (8 ∷ 0 ∷ mid) 8
        ≡ some (0, ac', 8 ∷ 0 ∷ numbered))
    × (xor_crypt numbered 8 keys.xor_key ≡ some (1, mid))
transform_buffer_to_message_replay_example =
    transform_buffer_to_message_replay reflected_table reflected_table-IsTable keys.xor_key
      keys-IsBytes (omega arith) short 8 0 numbered packet-IsBytes 8 (omega arith) (omega arith)
      (omega arith) keys refl (omega arith)

-- The keys of the table are all ones, the buffer is empty.
abbrev ones : List ℕ
ones = replicate 4352 1

abbrev empty_packet : List ℕ
empty_packet = replicate 1024 0

keys-IsKeys : IsKeys keys
keys-IsKeys = record {
  xor_long = refl;
  swap_long = refl;
  xor_bytes = keys-IsBytes;
  swap_bytes = Small-IsBytes (replicate 5 0) (omega arith);
}

send_key_lem_example :
    let ac' = fresh ones 1804289383 846930886 keys in
    (out : List ℕ) × (send_key ones 1804289383 846930886 keys empty_packet ≡ some (32, ac', out))
    × IsKeys ac'
    × (ecb_crypt default_ecb out 30 des_decrypt
        ≡ some (device_error des_decrypt, packet (secret ac') empty_packet))
send_key_lem_example =
    send_key_lem ones 1804289383 846930886 keys empty_packet (length-replicate {A = ℕ} 4352 1)
      (replicate-IsBytes 4352 1 (omega arith)) keys-IsKeys
      (omega (arith, length-replicate {A = ℕ} 1024 0)) (replicate-IsBytes 1024 0 (omega arith))
