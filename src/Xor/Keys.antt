-- ===== src/Xor/Keys.antt =====
-- The table of xor keys (src/leo_dof_crypto.c): `initial_xor_keys` and `rand_xor_key`. The C
-- library's `rand` is a parameter, the value of each of its calls in order; a key is 17 bytes of one
-- block of memory, and a pointer to it is its offset there.
pub mod Rows
use leo_net.Base.{ℕ, zero, suc, ◌+◌, ◌*◌, ◌%◌, Option, some, List, ◌>>=◌, u8}
use leo_net.Base.Memory.{store_elem}

abbrev pub xor_key_len : ℕ
xor_key_len = 16

abbrev pub max_xor_num : ℕ
max_xor_num = 256

-- The macro `rand_between(1, 255)` on a value of `rand`.
abbrev pub rand_between_1_255 : ℕ → ℕ
rand_between_1_255 value = 1 + value % 255

module _ (rand : ℕ → ℕ) where
  -- The inner loop, from column `j` of row `i` on, after `calls` calls of `rand`.
  pub fill_key : ℕ → ℕ → ℕ → ℕ → List ℕ → Option (List ℕ)
  fill_key zero i j calls xor_keys = some xor_keys
  fill_key (suc left) i j calls xor_keys = do
    xor_keys' ← store_elem xor_keys (17 * i + j) (u8 (rand_between_1_255 (rand calls)))
    fill_key left i (j + 1) (calls + 1) xor_keys'

  pub fill_keys : ℕ → ℕ → ℕ → List ℕ → Option (List ℕ)
  fill_keys zero i calls xor_keys = some xor_keys
  fill_keys (suc left) i calls xor_keys = do
    row ← fill_key xor_key_len i 0 calls xor_keys
    ended ← store_elem row (17 * i + 16) 0
    fill_keys left (i + 1) (calls + xor_key_len) ended

  pub initial_xor_keys : List ℕ → Option (List ℕ)
  initial_xor_keys xor_keys = fill_keys max_xor_num 0 0 xor_keys

-- The key's offset, by a value of `rand`.
unfoldable pub rand_xor_key : ℕ → ℕ
rand_xor_key value = 17 * (value % max_xor_num)
