-- ===== src/Des/Standard.antt =====
-- The cipher function of DES as FIPS 46-3 states it, with the tables of that document: what the
-- rounds of src/leo_des_crypto.c, which go by words and by other tables, are meant to compute. A
-- block of bits is a number whose bit 1 is the highest, and a block of 48 bits its eight groups of
-- six.
pub mod Linear
pub mod Expansion
pub mod Round
pub mod Initial
pub mod Keys
pub mod Block
pub mod Cipher
use leo_net.Base.{
  ℕ, zero, suc, ◌+◌, ◌-◌, ◌*◌, ◌/◌, ◌%◌, ◌^◌, bit_and, bit_xor, List, [], ◌∷◌, ◌==◌, if◌then◌else◌,
  shr,
}
use leo_net.Base.Lists.{get_or}
use leo_net.Des.{Words}

-- The bit of weight `2 ^ n`.
unfoldable pub bit : ℕ → ℕ → ℕ
bit n x = x / 2 ^ n % 2

-- The bits of a block of `w` at the places of a table, put below those of `acc`.
unfoldable pub select_from : ℕ → List ℕ → ℕ → ℕ → ℕ
select_from acc [] w x = acc
select_from acc (t ∷ ts) w x = select_from (acc * 2 + bit (w - t) x) ts w x

unfoldable pub e_table : List (List ℕ)
e_table =
    (32 ∷ 1 ∷ 2 ∷ 3 ∷ 4 ∷ 5 ∷ [])
    ∷ (4 ∷ 5 ∷ 6 ∷ 7 ∷ 8 ∷ 9 ∷ [])
    ∷ (8 ∷ 9 ∷ 10 ∷ 11 ∷ 12 ∷ 13 ∷ [])
    ∷ (12 ∷ 13 ∷ 14 ∷ 15 ∷ 16 ∷ 17 ∷ [])
    ∷ (16 ∷ 17 ∷ 18 ∷ 19 ∷ 20 ∷ 21 ∷ [])
    ∷ (20 ∷ 21 ∷ 22 ∷ 23 ∷ 24 ∷ 25 ∷ [])
    ∷ (24 ∷ 25 ∷ 26 ∷ 27 ∷ 28 ∷ 29 ∷ [])
    ∷ (28 ∷ 29 ∷ 30 ∷ 31 ∷ 32 ∷ 1 ∷ [])
    ∷ []

unfoldable pub p_table : List ℕ
p_table =
    16 ∷ 7 ∷ 20 ∷ 21 ∷ 29 ∷ 12 ∷ 28 ∷ 17 ∷ 1 ∷ 15 ∷ 23 ∷ 26 ∷ 5 ∷ 18 ∷ 31 ∷ 10 ∷ 2 ∷ 8 ∷ 24 ∷ 14
    ∷ 32 ∷ 27 ∷ 3 ∷ 9 ∷ 19 ∷ 13 ∷ 30 ∷ 6 ∷ 22 ∷ 11 ∷ 4 ∷ 25 ∷ []

-- The primitive functions S1 to S8, each with its four rows.
unfoldable pub s_table : List (List (List ℕ))
s_table =
    ((14 ∷ 4 ∷ 13 ∷ 1 ∷ 2 ∷ 15 ∷ 11 ∷ 8 ∷ 3 ∷ 10 ∷ 6 ∷ 12 ∷ 5 ∷ 9 ∷ 0 ∷ 7 ∷ [])
      ∷ (0 ∷ 15 ∷ 7 ∷ 4 ∷ 14 ∷ 2 ∷ 13 ∷ 1 ∷ 10 ∷ 6 ∷ 12 ∷ 11 ∷ 9 ∷ 5 ∷ 3 ∷ 8 ∷ [])
      ∷ (4 ∷ 1 ∷ 14 ∷ 8 ∷ 13 ∷ 6 ∷ 2 ∷ 11 ∷ 15 ∷ 12 ∷ 9 ∷ 7 ∷ 3 ∷ 10 ∷ 5 ∷ 0 ∷ [])
      ∷ (15 ∷ 12 ∷ 8 ∷ 2 ∷ 4 ∷ 9 ∷ 1 ∷ 7 ∷ 5 ∷ 11 ∷ 3 ∷ 14 ∷ 10 ∷ 0 ∷ 6 ∷ 13 ∷ [])
      ∷ [])
    ∷ ((15 ∷ 1 ∷ 8 ∷ 14 ∷ 6 ∷ 11 ∷ 3 ∷ 4 ∷ 9 ∷ 7 ∷ 2 ∷ 13 ∷ 12 ∷ 0 ∷ 5 ∷ 10 ∷ [])
        ∷ (3 ∷ 13 ∷ 4 ∷ 7 ∷ 15 ∷ 2 ∷ 8 ∷ 14 ∷ 12 ∷ 0 ∷ 1 ∷ 10 ∷ 6 ∷ 9 ∷ 11 ∷ 5 ∷ [])
        ∷ (0 ∷ 14 ∷ 7 ∷ 11 ∷ 10 ∷ 4 ∷ 13 ∷ 1 ∷ 5 ∷ 8 ∷ 12 ∷ 6 ∷ 9 ∷ 3 ∷ 2 ∷ 15 ∷ [])
        ∷ (13 ∷ 8 ∷ 10 ∷ 1 ∷ 3 ∷ 15 ∷ 4 ∷ 2 ∷ 11 ∷ 6 ∷ 7 ∷ 12 ∷ 0 ∷ 5 ∷ 14 ∷ 9 ∷ [])
        ∷ [])
    ∷ ((10 ∷ 0 ∷ 9 ∷ 14 ∷ 6 ∷ 3 ∷ 15 ∷ 5 ∷ 1 ∷ 13 ∷ 12 ∷ 7 ∷ 11 ∷ 4 ∷ 2 ∷ 8 ∷ [])
        ∷ (13 ∷ 7 ∷ 0 ∷ 9 ∷ 3 ∷ 4 ∷ 6 ∷ 10 ∷ 2 ∷ 8 ∷ 5 ∷ 14 ∷ 12 ∷ 11 ∷ 15 ∷ 1 ∷ [])
        ∷ (13 ∷ 6 ∷ 4 ∷ 9 ∷ 8 ∷ 15 ∷ 3 ∷ 0 ∷ 11 ∷ 1 ∷ 2 ∷ 12 ∷ 5 ∷ 10 ∷ 14 ∷ 7 ∷ [])
        ∷ (1 ∷ 10 ∷ 13 ∷ 0 ∷ 6 ∷ 9 ∷ 8 ∷ 7 ∷ 4 ∷ 15 ∷ 14 ∷ 3 ∷ 11 ∷ 5 ∷ 2 ∷ 12 ∷ [])
        ∷ [])
    ∷ ((7 ∷ 13 ∷ 14 ∷ 3 ∷ 0 ∷ 6 ∷ 9 ∷ 10 ∷ 1 ∷ 2 ∷ 8 ∷ 5 ∷ 11 ∷ 12 ∷ 4 ∷ 15 ∷ [])
        ∷ (13 ∷ 8 ∷ 11 ∷ 5 ∷ 6 ∷ 15 ∷ 0 ∷ 3 ∷ 4 ∷ 7 ∷ 2 ∷ 12 ∷ 1 ∷ 10 ∷ 14 ∷ 9 ∷ [])
        ∷ (10 ∷ 6 ∷ 9 ∷ 0 ∷ 12 ∷ 11 ∷ 7 ∷ 13 ∷ 15 ∷ 1 ∷ 3 ∷ 14 ∷ 5 ∷ 2 ∷ 8 ∷ 4 ∷ [])
        ∷ (3 ∷ 15 ∷ 0 ∷ 6 ∷ 10 ∷ 1 ∷ 13 ∷ 8 ∷ 9 ∷ 4 ∷ 5 ∷ 11 ∷ 12 ∷ 7 ∷ 2 ∷ 14 ∷ [])
        ∷ [])
    ∷ ((2 ∷ 12 ∷ 4 ∷ 1 ∷ 7 ∷ 10 ∷ 11 ∷ 6 ∷ 8 ∷ 5 ∷ 3 ∷ 15 ∷ 13 ∷ 0 ∷ 14 ∷ 9 ∷ [])
        ∷ (14 ∷ 11 ∷ 2 ∷ 12 ∷ 4 ∷ 7 ∷ 13 ∷ 1 ∷ 5 ∷ 0 ∷ 15 ∷ 10 ∷ 3 ∷ 9 ∷ 8 ∷ 6 ∷ [])
        ∷ (4 ∷ 2 ∷ 1 ∷ 11 ∷ 10 ∷ 13 ∷ 7 ∷ 8 ∷ 15 ∷ 9 ∷ 12 ∷ 5 ∷ 6 ∷ 3 ∷ 0 ∷ 14 ∷ [])
        ∷ (11 ∷ 8 ∷ 12 ∷ 7 ∷ 1 ∷ 14 ∷ 2 ∷ 13 ∷ 6 ∷ 15 ∷ 0 ∷ 9 ∷ 10 ∷ 4 ∷ 5 ∷ 3 ∷ [])
        ∷ [])
    ∷ ((12 ∷ 1 ∷ 10 ∷ 15 ∷ 9 ∷ 2 ∷ 6 ∷ 8 ∷ 0 ∷ 13 ∷ 3 ∷ 4 ∷ 14 ∷ 7 ∷ 5 ∷ 11 ∷ [])
        ∷ (10 ∷ 15 ∷ 4 ∷ 2 ∷ 7 ∷ 12 ∷ 9 ∷ 5 ∷ 6 ∷ 1 ∷ 13 ∷ 14 ∷ 0 ∷ 11 ∷ 3 ∷ 8 ∷ [])
        ∷ (9 ∷ 14 ∷ 15 ∷ 5 ∷ 2 ∷ 8 ∷ 12 ∷ 3 ∷ 7 ∷ 0 ∷ 4 ∷ 10 ∷ 1 ∷ 13 ∷ 11 ∷ 6 ∷ [])
        ∷ (4 ∷ 3 ∷ 2 ∷ 12 ∷ 9 ∷ 5 ∷ 15 ∷ 10 ∷ 11 ∷ 14 ∷ 1 ∷ 7 ∷ 6 ∷ 0 ∷ 8 ∷ 13 ∷ [])
        ∷ [])
    ∷ ((4 ∷ 11 ∷ 2 ∷ 14 ∷ 15 ∷ 0 ∷ 8 ∷ 13 ∷ 3 ∷ 12 ∷ 9 ∷ 7 ∷ 5 ∷ 10 ∷ 6 ∷ 1 ∷ [])
        ∷ (13 ∷ 0 ∷ 11 ∷ 7 ∷ 4 ∷ 9 ∷ 1 ∷ 10 ∷ 14 ∷ 3 ∷ 5 ∷ 12 ∷ 2 ∷ 15 ∷ 8 ∷ 6 ∷ [])
        ∷ (1 ∷ 4 ∷ 11 ∷ 13 ∷ 12 ∷ 3 ∷ 7 ∷ 14 ∷ 10 ∷ 15 ∷ 6 ∷ 8 ∷ 0 ∷ 5 ∷ 9 ∷ 2 ∷ [])
        ∷ (6 ∷ 11 ∷ 13 ∷ 8 ∷ 1 ∷ 4 ∷ 10 ∷ 7 ∷ 9 ∷ 5 ∷ 0 ∷ 15 ∷ 14 ∷ 2 ∷ 3 ∷ 12 ∷ [])
        ∷ [])
    ∷ ((13 ∷ 2 ∷ 8 ∷ 4 ∷ 6 ∷ 15 ∷ 11 ∷ 1 ∷ 10 ∷ 9 ∷ 3 ∷ 14 ∷ 5 ∷ 0 ∷ 12 ∷ 7 ∷ [])
        ∷ (1 ∷ 15 ∷ 13 ∷ 8 ∷ 10 ∷ 3 ∷ 7 ∷ 4 ∷ 12 ∷ 5 ∷ 6 ∷ 11 ∷ 0 ∷ 14 ∷ 9 ∷ 2 ∷ [])
        ∷ (7 ∷ 11 ∷ 4 ∷ 1 ∷ 9 ∷ 12 ∷ 14 ∷ 2 ∷ 0 ∷ 6 ∷ 10 ∷ 13 ∷ 15 ∷ 3 ∷ 5 ∷ 8 ∷ [])
        ∷ (2 ∷ 1 ∷ 14 ∷ 7 ∷ 4 ∷ 10 ∷ 8 ∷ 13 ∷ 15 ∷ 12 ∷ 9 ∷ 0 ∷ 3 ∷ 5 ∷ 6 ∷ 11 ∷ [])
        ∷ [])
    ∷ []

-- A group of six bits: the first and the last are the row, the others the column.
unfoldable pub s_box : ℕ → ℕ → ℕ
s_box i j = get_or (get_or (get_or s_table i []) (2 * (j / 32) + j % 2) []) (j / 2 % 16) 0

-- The group `i` of `E(r)`.
unfoldable pub expansion : ℕ → ℕ → ℕ
expansion i r = select_from 0 (get_or e_table i []) 32 r

unfoldable pub permutation : ℕ → ℕ
permutation x = select_from 0 p_table 32 x

-- The last `left` of the eight S-boxes, each at its group, one after the other.
unfoldable pub s_boxes : (ℕ → ℕ) → ℕ → ℕ
s_boxes group zero = 0
s_boxes group (suc left) = s_box (7 - left) (group (7 - left)) * 2 ^ (4 * left) + s_boxes group left

-- `f(R, K)`, with the groups of `K`.
unfoldable pub cipher_function : ℕ → (ℕ → ℕ) → ℕ
cipher_function r key = permutation (s_boxes (λ i. bit_xor (expansion i r) (key i)) 8)

-- One iteration: `L' = R` and `R' = L xor f(R, K)`.
unfoldable pub iteration : (ℕ → ℕ) → Words → Words
iteration key w = record { l = w.r; r = bit_xor w.l (cipher_function w.r key) }

-- The iterations with the keys from `i` on.
unfoldable pub iterations : (ℕ → ℕ → ℕ) → ℕ → ℕ → Words → Words
iterations keys zero i w = w
iterations keys (suc left) i w = iterations keys left (i + 1) (iteration (keys i) w)

-- The groups of a round's key, which the two key words hold in turns, six bits to a byte.
abbrev pub six : ℕ → ℕ → ℕ
six x n = bit_and (shr x n) 0x3f

unfoldable pub groups : ℕ × ℕ → ℕ → ℕ
groups key i = if i % 2 == 0 then six key.0 (24 - 4 * i) else six key.1 (28 - 4 * i)

-- The eight rows of IP: four for the left word, four for the right one.
unfoldable pub ip_left : List (List ℕ)
ip_left =
    (58 ∷ 50 ∷ 42 ∷ 34 ∷ 26 ∷ 18 ∷ 10 ∷ 2 ∷ [])
    ∷ (60 ∷ 52 ∷ 44 ∷ 36 ∷ 28 ∷ 20 ∷ 12 ∷ 4 ∷ [])
    ∷ (62 ∷ 54 ∷ 46 ∷ 38 ∷ 30 ∷ 22 ∷ 14 ∷ 6 ∷ [])
    ∷ (64 ∷ 56 ∷ 48 ∷ 40 ∷ 32 ∷ 24 ∷ 16 ∷ 8 ∷ [])
    ∷ []

unfoldable pub ip_right : List (List ℕ)
ip_right =
    (57 ∷ 49 ∷ 41 ∷ 33 ∷ 25 ∷ 17 ∷ 9 ∷ 1 ∷ [])
    ∷ (59 ∷ 51 ∷ 43 ∷ 35 ∷ 27 ∷ 19 ∷ 11 ∷ 3 ∷ [])
    ∷ (61 ∷ 53 ∷ 45 ∷ 37 ∷ 29 ∷ 21 ∷ 13 ∷ 5 ∷ [])
    ∷ (63 ∷ 55 ∷ 47 ∷ 39 ∷ 31 ∷ 23 ∷ 15 ∷ 7 ∷ [])
    ∷ []

-- The bit `n` of a block of eight bytes, bit 1 being the highest bit of the first byte.
unfoldable pub block_bit : List ℕ → ℕ → ℕ
block_bit s n = bit (7 - (n - 1) % 8) (get_or s ((n - 1) / 8) 0)

unfoldable pub select_row : List ℕ → ℕ → List ℕ → ℕ
select_row s acc [] = acc
select_row s acc (t ∷ ts) = select_row s (acc * 2 + block_bit s t) ts

unfoldable pub select_rows : List ℕ → ℕ → List (List ℕ) → ℕ
select_rows s acc [] = acc
select_rows s acc (row ∷ rows) = select_rows s (select_row s acc row) rows

-- `L` and `R` of the permuted input.
unfoldable pub initial_permutation : List ℕ → Words
initial_permutation s = record { l = select_rows s 0 ip_left; r = select_rows s 0 ip_right }
