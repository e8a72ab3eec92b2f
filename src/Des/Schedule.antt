-- ===== src/Des/Schedule.antt =====
-- The key schedule of DES, `des_setkey`, and `des_setparity` (src/leo_des_crypto.c). An `unsigned
-- long` has 32 bits, as on Windows, which the project is built for.
pub mod Parity
pub mod Sixes
use leo_net.Base.{
  ℕ, zero, suc, ◌+◌, ◌-◌, ◌*◌, ◌/◌, ◌%◌, ◌^◌, bit_and, bit_or, bit_xor, Bool, not, Option, some,
  List, [], ◌∷◌, ◌++◌, leb, ltb, ◌==◌, if◌then◌else◌, ◌>>=◌, u8, shl32, shr,
}
use leo_net.Base.Lists.{get_or, get_elem?}
use leo_net.Base.Memory.{load_block, store_elem}

-- The flipping of the eighth bit of one byte.
unfoldable pub set_parity_of : ℕ → ℕ
set_parity_of k =
    let k = bit_and k 0x7f in
    let c = bit_xor k (u8 (k * 2 ^ 4)) in
    let c = bit_xor c (u8 (c * 2 ^ 2)) in
    let c = bit_xor c (u8 (c * 2 ^ 1)) in bit_xor k (bit_and (255 - c) 0x80)

-- The loop over `n` bytes from `at` on.
unfoldable pub set_parity_from : ℕ → ℕ → List ℕ → Option (List ℕ)
set_parity_from zero at key = some key
set_parity_from (suc n) at key = do
  k ← get_elem? key at
  key' ← store_elem key at (set_parity_of k)
  set_parity_from n (at + 1) key'

unfoldable pub des_setparity : List ℕ → Option (List ℕ)
des_setparity key = set_parity_from 8 0 key

-- `C` and `D`, where the halves of PC-1 begin.
abbrev pub c_base : ℕ
c_base = 28

unfoldable pub nshifts : List ℕ
nshifts = 1 ∷ 1 ∷ 2 ∷ 2 ∷ 2 ∷ 2 ∷ 2 ∷ 2 ∷ 1 ∷ 2 ∷ 2 ∷ 2 ∷ 2 ∷ 2 ∷ 2 ∷ 1 ∷ []

-- `C + n` is written as `28 + n`'s value.
unfoldable pub pc1 : List ℕ
pc1 =
    48 ∷ 40 ∷ 32 ∷ 0 ∷ 4 ∷ 12 ∷ 20 ∷ 49 ∷ 41 ∷ 33 ∷ 1 ∷ 5 ∷ 13 ∷ 21 ∷ 50 ∷ 42 ∷ 34 ∷ 2 ∷ 6 ∷ 14 ∷ 22
    ∷ 51 ∷ 43 ∷ 35 ∷ 3 ∷ 7 ∷ 15 ∷ 23 ∷ 52 ∷ 44 ∷ 36 ∷ 28 ∷ 8 ∷ 16 ∷ 24 ∷ 53 ∷ 45 ∷ 37 ∷ 29 ∷ 9 ∷ 17
    ∷ 25 ∷ 54 ∷ 46 ∷ 38 ∷ 30 ∷ 10 ∷ 18 ∷ 26 ∷ 55 ∷ 47 ∷ 39 ∷ 31 ∷ 11 ∷ 19 ∷ 27 ∷ []

unfoldable pub pc2_c : List ℕ
pc2_c =
    14 ∷ 11 ∷ 17 ∷ 4 ∷ 27 ∷ 23 ∷ 25 ∷ 0 ∷ 13 ∷ 22 ∷ 7 ∷ 18 ∷ 5 ∷ 9 ∷ 16 ∷ 24 ∷ 2 ∷ 20 ∷ 12 ∷ 21 ∷ 1
    ∷ 8 ∷ 15 ∷ 26 ∷ []

unfoldable pub pc2_d : List ℕ
pc2_d =
    15 ∷ 4 ∷ 25 ∷ 19 ∷ 9 ∷ 1 ∷ 26 ∷ 16 ∷ 5 ∷ 11 ∷ 23 ∷ 8 ∷ 12 ∷ 7 ∷ 17 ∷ 0 ∷ 22 ∷ 3 ∷ 10 ∷ 14 ∷ 6
    ∷ 20 ∷ 27 ∷ 24 ∷ []

-- The two halves of the key register.
pub record Halves : Type 0 where
  pub c : ℕ
  pub d : ℕ

-- PC-1: the inner loop over the bits of one byte, `p` an index of `pc1`.
unfoldable pub choose_bits : ℕ → ℕ → ℕ → Halves → Halves
choose_bits zero p b h = h
choose_bits (suc j) p b h =
    let at = get_or pc1 p 0 in
    let h' =
      if bit_and b 0x80 == 0
      then h
      else if leb c_base at
      then record h { c = bit_or h.c (shl32 1 (at - c_base)) }
      else record h { d = bit_or h.d (shl32 1 at) } in
    choose_bits j (p + 1) (u8 (b * 2)) h'

-- The outer loop, over the key's bytes.
unfoldable pub choose : ℕ → List ℕ → Halves → Halves
choose p [] h = h
choose p (b ∷ key) h = choose (p + 7) key (choose_bits 7 p b h)

-- `(x << n | x >> (28 - n)) & 0x0fffffff`
unfoldable pub rotate28 : ℕ → ℕ → ℕ
rotate28 x n = bit_and (bit_or (shl32 x n) (shr x (28 - n))) 0x0fffffff

-- PC-2: the loop over one byte's six masks, from `2 ^ n` halved down to 1; `p` is an index of `pc2`.
unfoldable pub pick_bits : List ℕ → ℕ → ℕ → ℕ → ℕ → ℕ
pick_bits pc2 zero p x k = k
pick_bits pc2 (suc n) p x k =
    pick_bits pc2 n (p + 1) x
      (if bit_and (shr x (get_or pc2 p 0)) 1 == 0 then k else bit_or k (2 ^ n))

abbrev pub six_bits : List ℕ → ℕ → ℕ → ℕ
six_bits pc2 j x = pick_bits pc2 6 (6 * j) x 0

-- Four bytes as one word, the first one highest.
abbrev pub word_of : ℕ → ℕ → ℕ → ℕ → ℕ
word_of a b c d = bit_or (bit_or (bit_or (shl32 a 24) (shl32 b 16)) (shl32 c 8)) d

-- `keys[i]`, the first and the second word.
unfoldable pub round_key : Halves → ℕ × ℕ
round_key h = (
  word_of (six_bits pc2_c 0 h.c) (six_bits pc2_c 2 h.c) (six_bits pc2_d 0 h.d)
      (six_bits pc2_d 2 h.d),
  word_of (six_bits pc2_c 1 h.c) (six_bits pc2_c 3 h.c) (six_bits pc2_d 1 h.d)
      (six_bits pc2_d 3 h.d),
)

unfoldable pub shift_halves : Halves → ℕ → Halves
shift_halves h n = record { c = rotate28 h.c n; d = rotate28 h.d n }

-- The loop over the rounds, one for each entry of `nshifts`.
unfoldable pub round_keys : List ℕ → Halves → List (ℕ × ℕ)
round_keys [] h = []
round_keys (n ∷ shifts) h = let h' = shift_halves h n in round_key h' ∷ round_keys shifts h'

-- What the global `keys` is set to.
unfoldable pub des_setkey : List ℕ → Option (List (ℕ × ℕ))
des_setkey key = do
  bytes ← load_block key 0 8
  some (round_keys nshifts (choose 0 bytes (record { c = 0; d = 0 })))
