-- ===== src/Protocol.antt =====
-- The framing of the game's packets (src/leo_tcp_game_protocol.c): `transform_message_to_buffer` for
-- those that go out, `transform_buffer_to_message` for those that come in. `none` is an access out of
-- range.
pub mod Send
pub mod Receive
pub mod Key
mod Tests
use leo_net.Base.{
  ℕ, ◌+◌, ◌-◌, ◌*◌, bit_xor, not, Option, some, List, ◌++◌, ltb, ◌==◌, if◌then◌else◌, ◌>>=◌, add32,
  sub32,
}
use leo_net.Base.Lists.{take, drop}
use leo_net.Base.Memory.{load_block, store_block}
use leo_net.Base.Endian.{load32, store16}
use leo_net.Message.{NetMessage}
use leo_net.Xor.{xor_crypt, xor_decrypt}
use leo_net.Crc.{check_crc32}

pub record AboutCrypt : Type 0 where
  pub sequence_id : ℕ
  pub session_key : ℕ
  pub xor_key : List ℕ
  pub swap_key : List ℕ

-- The returned length and the buffer from `buf` on.
pub transform_message_to_buffer : AboutCrypt → NetMessage → List ℕ → ℕ → Option (ℕ × List ℕ)
transform_message_to_buffer ac nm buf buf_len =
    let data_size = nm.real_size in
    let len = 6 + data_size in
    if ltb buf_len (3 * 2 + data_size) then some (0, buf) else (do
      with_id ← store16 buf 2 nm.id
      with_size ← store16 with_id 4 data_size
      bytes ← load_block nm.buffer 0 data_size
      with_data ← store_block with_size 6 bytes
      crypted ← xor_crypt (drop 2 with_data) (len - 2) ac.xor_key
      some (len, take 2 with_data ++ crypted.1))

-- The returned value, the keys' record and the buffer from `buf` on. The first argument is
-- `crc32_table`; the message is never touched.
unfoldable pub transform_buffer_to_message :
    List ℕ → AboutCrypt → NetMessage → List ℕ → ℕ → Option (ℕ × AboutCrypt × List ℕ)
transform_buffer_to_message crc32_table ac nm buf msg_len = do
  decrypted ← xor_decrypt (drop 2 buf) msg_len ac.xor_key
  let buf' = take 2 buf ++ decrypted.1
  checked ← check_crc32 crc32_table buf' (add32 2 msg_len)
  if checked == 0 then some (0, ac, buf') else (do
    sequence_id ← load32 buf' 2
    if not (bit_xor sequence_id ac.session_key == ac.sequence_id)
        then some (0, ac, buf')
        else some (0, record ac { sequence_id = add32 ac.sequence_id 1 }, buf'))
