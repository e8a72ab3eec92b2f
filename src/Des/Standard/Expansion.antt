-- ===== src/Des/Standard/Expansion.antt =====
-- The rotations of `des_crypt` (src/leo_des_crypto.c) bring the eight groups of the expansion E of
-- FIPS 46-3 into the low six bits of the bytes of two words.
use leo_net.Base.{ℕ, ◌+◌, ◌*◌, ◌/◌, ◌%◌, ◌^◌, ◌<◌, ◌≡◌, ◌∙◌, ap, ap₂, bit_or, shl32, shr, arith}
use leo_net.Base.Bits.{bit_or-shifted, bit_or_fields, bit_or_none}
use Prim.Native.Nat.{bit_or-bitwise}
use leo_net.Des.Standard.Linear.{six_lem}
use leo_net.Des.{rol1, ror4}
use leo_net.Des.Octets.{below_8}
use leo_net.Des.Standard.{bit, select_from, expansion, e_table, groups}

rol1_lem : (r : ℕ) → r < 2 ^ 32 → rol1 r ≡ r % 2 ^ 31 * 2 + r / 2 ^ 31
unfolding rol1
rol1_lem r h =
    let doubled : shl32 r 1 ≡ r % 2 ^ 31 * 2 ^ 1 = omega arith in
    ap (λ t. bit_or t (shr r 31)) doubled ∙ bit_or-shifted 1 (r % 2 ^ 31) (r / 2 ^ 31) (omega arith)

ror4_lem : (x : ℕ) → x < 2 ^ 32 → ror4 x ≡ x % 2 ^ 4 * 2 ^ 28 + x / 2 ^ 4
unfolding ror4
ror4_lem x h =
    let lower : shr x 4 ≡ 0 * 2 ^ 28 + x / 2 ^ 4 = omega arith in
    let upper : shl32 x 28 ≡ x % 2 ^ 4 * 2 ^ 28 + 0 = omega arith in
    ap₂ bit_or lower upper
    ∙ (bit_or_fields 28 0 (x / 2 ^ 4) (x % 2 ^ 4) 0 (omega arith) (omega arith)
        ∙ ap₂ (λ a b. a * 2 ^ 28 + b) (bit_or-bitwise 0 (x % 2 ^ 4)) (bit_or_none (x / 2 ^ 4)))

pub groups-expansion :
    (r : ℕ) → r < 2 ^ 32 → (i : ℕ) → i < 8 → groups (ror4 (rol1 r), rol1 r) i ≡ expansion i r
unfolding groups expansion select_from bit e_table
groups-expansion r h =
    let first : rol1 r ≡ r % 2 ^ 31 * 2 + r / 2 ^ 31 = rol1_lem r h in
    let second : ror4 (rol1 r) ≡ rol1 r % 2 ^ 4 * 2 ^ 28 + rol1 r / 2 ^ 4 =
      ror4_lem (rol1 r) (omega (arith, first)) in
    below_8 (λ i. groups (ror4 (rol1 r), rol1 r) i ≡ expansion i r)
      (omega (arith, first, second, six_lem (ror4 (rol1 r)) 24))
      (omega (arith, first, six_lem (rol1 r) 24))
      (omega (arith, first, second, six_lem (ror4 (rol1 r)) 16))
      (omega (arith, first, six_lem (rol1 r) 16))
      (omega (arith, first, second, six_lem (ror4 (rol1 r)) 8))
      (omega (arith, first, six_lem (rol1 r) 8))
      (omega (arith, first, second, six_lem (ror4 (rol1 r)) 0))
      (omega (arith, first, six_lem (rol1 r) 0))
