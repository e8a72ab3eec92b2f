-- ===== src/Des.antt =====
-- DES (src/leo_des_crypto.c): `des_crypt` on one block, and the modes `ecb_crypt` and `cbc_crypt`
-- over a buffer. Memory holds bytes; a pointer is an offset in it, and `none` an access out of range.
pub mod Boxes
pub mod Small
pub mod Standard
pub mod Transposes
pub mod Schedule
pub mod Octets
pub mod Permute
pub mod Inverse
pub mod Rounds
pub mod Crypt
pub mod Blocks
pub mod Ecb
pub mod Cbc
mod Tests
use leo_net.Base.{
  ℕ, zero, suc, ◌+◌, ◌-◌, ◌*◌, ◌/◌, ◌%◌, ◌^◌, bit_and, bit_or, bit_xor, Option, some, List, [], ◌∷◌,
  ◌==◌, if◌then◌else◌, ◌>>=◌, u8, shl32, shr, add32,
}
use leo_net.Base.Lists.{get_or}
use leo_net.Base.Memory.{load_block, store_block}
use leo_net.Des.Boxes.{psboxes}
use leo_net.Des.Transposes.{ip_l, ip_r, ip_inv_l, ip_inv_r}
use leo_net.Des.Schedule.{des_setkey}

unfoldable pub ror4 : ℕ → ℕ
ror4 x = bit_or (shr x 4) (shl32 x 28)

unfoldable pub rol1 : ℕ → ℕ
rol1 x = bit_or (shl32 x 1) (shr x 31)

-- The macro of the build without `SMALL`.
unfoldable pub ps : ℕ → ℕ → ℕ
ps i j = get_or (get_or psboxes i []) j 0

-- The words `l` and `r`.
pub record Words : Type 0 where
  pub l : ℕ
  pub r : ℕ

-- `acc >> 1 | word`
abbrev pub shift_in : ℕ → ℕ → ℕ
shift_in acc word = bit_or (shr acc 1) word

-- The entries of a table at eight bytes, each moved right by one more place than the next.
unfoldable pub transpose : List ℕ → ℕ → ℕ → ℕ → ℕ → ℕ → ℕ → ℕ → ℕ → ℕ
transpose t a b c d e f g h =
    shift_in
      (shift_in
        (shift_in
          (shift_in
            (shift_in (shift_in (shift_in (get_or t a 0) (get_or t b 0)) (get_or t c 0))
              (get_or t d 0))
            (get_or t e 0))
          (get_or t f 0))
        (get_or t g 0))
      (get_or t h 0)

unfoldable pub initial_transpose : List ℕ → Words
initial_transpose s =
    let at : List ℕ → ℕ = λ t.
      transpose t (get_or s 0 0) (get_or s 1 0) (get_or s 2 0) (get_or s 3 0) (get_or s 4 0)
        (get_or s 5 0) (get_or s 6 0) (get_or s 7 0) in
    record { l = at ip_l; r = at ip_r }

-- What the eight S-boxes give for `x1` and `x2`.
unfoldable pub substitute : ℕ → ℕ → ℕ → ℕ
substitute l x1 x2 =
    let six : ℕ → ℕ → ℕ = λ x n. bit_and (shr x n) 0x3f in
    bit_xor
      (bit_xor
        (bit_xor
          (bit_xor
            (bit_xor
              (bit_xor (bit_xor (bit_xor l (ps 7 (six x1 0))) (ps 5 (six x1 8))) (ps 3 (six x1 16)))
              (ps 1 (six x1 24)))
            (ps 6 (six x2 0)))
          (ps 4 (six x2 8)))
        (ps 2 (six x2 16)))
      (ps 0 (six x2 24))

-- The body of the loop over the rounds, with the round's two key words.
unfoldable pub crypt_round : ℕ × ℕ → Words → Words
crypt_round key w =
    let x1 = rol1 w.r in
    let x2 = bit_xor (ror4 x1) key.0 in record { l = w.r; r = substitute w.l (bit_xor x1 key.1) x2 }

abbrev pub key_at : List (ℕ × ℕ) → ℕ → ℕ × ℕ
key_at keys i = get_or keys i (0, 0)

-- The loop with `flag` 0, from round `i` on.
unfoldable pub rounds_up : List (ℕ × ℕ) → ℕ → ℕ → Words → Words
rounds_up keys zero i w = w
rounds_up keys (suc left) i w = rounds_up keys left (i + 1) (crypt_round (key_at keys i) w)

-- The other loop, from round `i - 1` down.
unfoldable pub rounds_down : List (ℕ × ℕ) → ℕ → Words → Words
rounds_down keys zero w = w
rounds_down keys (suc i) w = rounds_down keys i (crypt_round (key_at keys i) w)

-- `x >> n & 0xff`
unfoldable pub byte : ℕ → ℕ → ℕ
byte x n = bit_and (shr x n) 0xff

unfoldable pub final_word : List ℕ → Words → ℕ
final_word t w =
    transpose t (byte w.r 0) (byte w.l 0) (byte w.r 8) (byte w.l 8) (byte w.r 16) (byte w.l 16)
      (byte w.r 24) (byte w.l 24)

-- The four stores of a word's bytes, the highest one first, before others.
unfoldable pub put_word : ℕ → List ℕ → List ℕ
put_word x rest = u8 (shr x 24) ∷ u8 (shr x 16) ∷ u8 (shr x 8) ∷ u8 x ∷ rest

unfoldable pub final_transpose : Words → List ℕ
final_transpose w = put_word (final_word ip_inv_l w) (put_word (final_word ip_inv_r w) [])

-- From the eight bytes of a block to those that replace them.
unfoldable pub crypt_block : List (ℕ × ℕ) → ℕ → List ℕ → List ℕ
crypt_block keys flag s =
    let w = initial_transpose s in
    final_transpose (if flag == 0 then rounds_up keys 16 0 w else rounds_down keys 16 w)

-- The first argument is the global `keys`, `at` the pointer.
unfoldable pub des_crypt : List (ℕ × ℕ) → List ℕ → ℕ → ℕ → Option (List ℕ)
des_crypt keys block at flag = do
  s ← load_block block at 8
  store_block block at (crypt_block keys flag s)

-- `(len + 7) & ~7`
unfoldable pub rounded : ℕ → ℕ
rounded len = bit_and (add32 len 7) 0xfffffff8

-- The bits of a mode.
abbrev pub des_dirmask : ℕ
des_dirmask = 1

abbrev pub des_devmask : ℕ
des_devmask = 2

abbrev pub des_encrypt : ℕ
des_encrypt = 0 * des_dirmask

abbrev pub des_decrypt : ℕ
des_decrypt = 1 * des_dirmask

abbrev pub des_sw : ℕ
des_sw = 1 * des_devmask

-- The value both modes return.
unfoldable pub device_error : ℕ → ℕ
device_error mode = if bit_and mode des_devmask == des_sw then 0 else 1

-- The loop of `ecb_crypt`, `left` being `len / 8`.
unfoldable pub ecb_blocks : List (ℕ × ℕ) → ℕ → ℕ → ℕ → List ℕ → Option (List ℕ)
ecb_blocks keys flag zero at buf = some buf
ecb_blocks keys flag (suc left) at buf = do
  buf' ← des_crypt keys buf at flag
  ecb_blocks keys flag left (at + 8) buf'

pub ecb_crypt : List ℕ → List ℕ → ℕ → ℕ → Option (ℕ × List ℕ)
ecb_crypt key buf len mode = do
  keys ← des_setkey key
  buf' ← ecb_blocks keys (bit_and mode des_dirmask) (rounded len / 8) 0 buf
  some (device_error mode, buf')

-- Two blocks of the same length, masked byte by byte.
unfoldable pub xor_bytes : List ℕ → List ℕ → List ℕ
xor_bytes [] ys = []
xor_bytes (x ∷ xs) [] = []
xor_bytes (x ∷ xs) (y ∷ ys) = bit_xor x y ∷ xor_bytes xs ys

-- The two loops of `cbc_crypt`, with the buffer and `ivec`.
unfoldable pub cbc_encrypt : List (ℕ × ℕ) → ℕ → ℕ → List ℕ → List ℕ → Option (List ℕ × List ℕ)
cbc_encrypt keys zero at buf ivec = some (buf, ivec)
cbc_encrypt keys (suc left) at buf ivec = do
  plain ← load_block buf at 8
  iv ← load_block ivec 0 8
  masked ← store_block buf at (xor_bytes plain iv)
  buf' ← des_crypt keys masked at des_encrypt
  cipher ← load_block buf' at 8
  ivec' ← store_block ivec 0 cipher
  cbc_encrypt keys left (at + 8) buf' ivec'

unfoldable pub cbc_decrypt : List (ℕ × ℕ) → ℕ → ℕ → List ℕ → List ℕ → Option (List ℕ × List ℕ)
cbc_decrypt keys zero at buf ivec = some (buf, ivec)
cbc_decrypt keys (suc left) at buf ivec = do
  nvec ← load_block buf at 8
  decrypted ← des_crypt keys buf at des_decrypt
  masked ← load_block decrypted at 8
  iv ← load_block ivec 0 8
  buf' ← store_block decrypted at (xor_bytes masked iv)
  ivec' ← store_block ivec 0 nvec
  cbc_decrypt keys left (at + 8) buf' ivec'

-- `DES_DIRMASK` being 1, the two cases of the `switch` are all there are.
pub cbc_crypt : List ℕ → List ℕ → ℕ → ℕ → List ℕ → Option (ℕ × List ℕ × List ℕ)
cbc_crypt key buf len mode ivec = do
  keys ← des_setkey key
  buffers ←
      if bit_and mode des_dirmask == des_encrypt
      then cbc_encrypt keys (rounded len / 8) 0 buf ivec
      else cbc_decrypt keys (rounded len / 8) 0 buf ivec
  some (device_error mode, buffers.0, buffers.1)
