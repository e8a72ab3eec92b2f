-- ===== src/Protocol/Key.antt =====
-- `send_key` (src/leo_tcp_game_protocol.c): fresh keys for a session, and the packet that tells the
-- client, encrypted by `ecb_crypt`. The two values of `rand` are parameters, and so is the table of
-- xor keys, a global of src/leo_dof_crypto.c.
pub mod Sent
use leo_net.Base.{ℕ, ◌+◌, ◌*◌, Option, some, List, [], ◌∷◌, ◌++◌, ◌>>=◌, u32}
use leo_net.Base.Memory.{load_block, store_block, store_elem}
use leo_net.Base.Endian.{store16, bytes4}
use leo_net.Xor.Keys.{rand_xor_key, xor_key_len}
use leo_net.Des.{ecb_crypt, des_encrypt}
use leo_net.Protocol.{AboutCrypt}

abbrev pub swap_key_len : ℕ
swap_key_len = 4

-- `sizeof(struct secret_key)`, packed.
abbrev pub secret_key_size : ℕ
secret_key_size = 4 + (xor_key_len + 1) + (swap_key_len + 1)

-- `DEFAULT_ECB`, "1Z2X3C0" with the 0 behind it.
abbrev pub default_ecb : List ℕ
default_ecb = 0x31 ∷ 0x5a ∷ 0x32 ∷ 0x58 ∷ 0x33 ∷ 0x43 ∷ 0x30 ∷ 0 ∷ []

-- The new keys.
unfoldable pub new_keys : List ℕ → ℕ → ℕ → AboutCrypt → Option AboutCrypt
new_keys xor_keys rand rand' ac = do
  chosen ← load_block xor_keys (rand_xor_key rand') xor_key_len
  xor_key ← store_block ac.xor_key 0 chosen
  xor_key' ← store_elem xor_key xor_key_len 0
  swap_key ← store_elem ac.swap_key swap_key_len 0
  some (record { sequence_id = 0; session_key = u32 rand; xor_key = xor_key'; swap_key = swap_key })

-- The bytes of the structure `secret_key`.
unfoldable pub secret_key : AboutCrypt → Option (List ℕ)
secret_key ac = do
  xor_key ← load_block ac.xor_key 0 (xor_key_len + 1)
  swap_key ← load_block ac.swap_key 0 (swap_key_len + 1)
  some (bytes4 ac.session_key ++ (xor_key ++ swap_key))

-- The returned length, the keys' record and the buffer.
unfoldable pub send_key : List ℕ → ℕ → ℕ → AboutCrypt → List ℕ → Option (ℕ × AboutCrypt × List ℕ)
send_key xor_keys rand rand' ac buf = do
  ac' ← new_keys xor_keys rand rand' ac
  sk ← secret_key ac'
  with_size ← store16 buf 0 secret_key_size
  with_id ← store16 with_size 2 0xffff
  with_keys ← store_block with_id 4 sk
  let len = 2 + 2 + secret_key_size
  crypted ← ecb_crypt default_ecb with_keys len des_encrypt
  some (len + 2, ac', crypted.1)
