-- ===== src/Xor.antt =====
-- `xor_crypt` and `xor_decrypt` (src/leo_dof_crypto.c): masking a buffer in place with the sixteen
-- bytes of a key, a word at a time and the rest by bytes. `none` is an access out of range.
pub mod Masked
pub mod Loops
pub mod Laws
pub mod Length
pub mod Keys
mod Tests
use leo_net.Base.{
  ℕ, zero, suc, ◌+◌, ◌-◌, ◌*◌, ◌/◌, ◌%◌, bit_xor, Option, some, List, [], ◌∷◌, ◌>>=◌, ltb,
  if◌then◌else◌,
}
use leo_net.Base.Lists.{get_elem?}
use leo_net.Base.Memory.{store_block}
use leo_net.Base.Endian.{load32, store32}

module _ (key : List ℕ) where
  -- The loop over the words, at word `i` of the buffer and word `j` of the key.
  unfoldable pub xor_sections : ℕ → ℕ → ℕ → List ℕ → Option (List ℕ)
  xor_sections zero i j buf = some buf
  xor_sections (suc left) i j buf = do
    b ← load32 buf (4 * i)
    k ← load32 key (4 * j)
    buf' ← store32 buf (4 * i) (bit_xor b k)
    xor_sections left (i + 1) ((j + 1) % 4) buf'

  -- The loop over the last bytes, `tmp_buf` and `tmp_key` being offsets.
  unfoldable pub xor_remains : ℕ → ℕ → ℕ → List ℕ → Option (List ℕ)
  xor_remains zero tmp_buf tmp_key buf = some buf
  xor_remains (suc left) tmp_buf tmp_key buf = do
    b ← get_elem? buf tmp_buf
    k ← get_elem? key tmp_key
    buf' ← store_block buf tmp_buf (bit_xor b k ∷ [])
    xor_remains left (tmp_buf + 1) (tmp_key + 1) buf'

-- The number is the return value, `true`.
unfoldable pub xor_crypt : List ℕ → ℕ → List ℕ → Option (ℕ × List ℕ)
xor_crypt buf len key =
    let sections = len / 4 in
    let remains = len % 4 in
    do
      buf' ← xor_sections key sections 0 0 buf
      buf'' ← if ltb 0 remains then xor_remains key remains (len - remains) 0 buf' else some buf'
      some (1, buf'')

pub xor_decrypt : List ℕ → ℕ → List ℕ → Option (ℕ × List ℕ)
xor_decrypt buf len key = xor_crypt buf len key
