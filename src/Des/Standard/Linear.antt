-- ===== src/Des/Standard/Linear.antt =====
-- The selections of DES (src/leo_des_crypto.c, FIPS 46-3) commute with the exclusive or, and so
-- the permutation of all S-boxes' outputs is the exclusive or of each one's, permuted.
use leo_net.Base.{
  ℕ, zero, suc, ◌+◌, ◌-◌, ◌*◌, ◌/◌, ◌%◌, ◌^◌, ◌<◌, ◌≡◌, ◌∙◌, refl, sym, ap, ap₂, bit_xor, shr, List,
  [], ◌∷◌, arith,
}
use native.Mathlib.Nat.{pow-suc, mul_comm, div-div-eq-div-mul, div-one, one-le-pow}
use leo_net.Base.Bits.{
  bit_and-low, bit_xor_half, bit_xor_parity, bit_xor_fields, bit_xor-zero, zero-bit_xor, bit_xor-lt,
}
use leo_net.Des.Standard.{bit, select_from, permutation, p_table, six, groups}

bit-lt : (n x : ℕ) → bit n x < 2
unfolding bit
bit-lt n x = omega arith

halve_first : (n x : ℕ) → x / 2 ^ suc n ≡ x / 2 / 2 ^ n
halve_first n x = rw (pow-suc 2 n, mul_comm (2 ^ n) 2, div-div-eq-div-mul x 2 (2 ^ n))

bit_xor-div : (n x y : ℕ) → bit_xor x y / 2 ^ n ≡ bit_xor (x / 2 ^ n) (y / 2 ^ n)
bit_xor-div zero x y = simp div-one refl
bit_xor-div (suc n) x y = rw (
  halve_first n (bit_xor x y),
  halve_first n x,
  halve_first n y,
  bit_xor_half x y,
  bit_xor-div n (x / 2) (y / 2),
)

low_bit : (x y : ℕ) → bit_xor x y % 2 ≡ bit_xor (x % 2) (y % 2)
low_bit x y = omega (
  arith,
  bit_xor_parity x y,
  bit_xor_parity (x % 2) (y % 2),
  bit_xor-lt 1 (x % 2) (y % 2) (omega arith) (omega arith),
)

bit-bit_xor : (n x y : ℕ) → bit n (bit_xor x y) ≡ bit_xor (bit n x) (bit n y)
unfolding bit
bit-bit_xor n x y = ap (λ t. t % 2) (bit_xor-div n x y) ∙ low_bit (x / 2 ^ n) (y / 2 ^ n)

select_from-bit_xor :
    (ts : List ℕ) (w a b x y : ℕ)
    → select_from (bit_xor a b) ts w (bit_xor x y)
      ≡ bit_xor (select_from a ts w x) (select_from b ts w y)
unfolding select_from
select_from-bit_xor [] w a b x y = refl
select_from-bit_xor (t ∷ ts) w a b x y =
    ap (λ acc. select_from acc ts w (bit_xor x y))
      (ap (λ d. bit_xor a b * 2 + d) (bit-bit_xor (w - t) x y)
        ∙ sym (bit_xor_fields 1 a (bit (w - t) x) b (bit (w - t) y) (bit-lt _ _) (bit-lt _ _)))
    ∙ select_from-bit_xor ts w (a * 2 + bit (w - t) x) (b * 2 + bit (w - t) y) x y

pub permutation-bit_xor :
    (x y : ℕ) → permutation (bit_xor x y) ≡ bit_xor (permutation x) (permutation y)
unfolding permutation
permutation-bit_xor x y = select_from-bit_xor p_table 32 0 0 x y

pub permutation-zero : permutation 0 ≡ 0
unfolding permutation select_from bit p_table
permutation-zero = refl

-- Two parts of a block, the lower one below `2 ^ k`.
pub permutation-parts :
    (k q r : ℕ)
    → r < 2 ^ k
    → permutation (q * 2 ^ k + r) ≡ bit_xor (permutation (q * 2 ^ k)) (permutation r)
permutation-parts k q r h =
    let upper : q * 2 ^ k + 0 ≡ q * 2 ^ k = omega arith in
    let lower : 0 * 2 ^ k + r ≡ r = omega arith in
    let apart : bit_xor (q * 2 ^ k) r ≡ q * 2 ^ k + r =
      ap₂ bit_xor (sym upper) (sym lower)
      ∙ (bit_xor_fields k q 0 0 r (one-le-pow k 2 (omega arith)) h
          ∙ ap₂ (λ a b. a * 2 ^ k + b) (bit_xor-zero q) (zero-bit_xor r)) in
    ap permutation (sym apart) ∙ permutation-bit_xor (q * 2 ^ k) r

pub six_lem : (x n : ℕ) → six x n ≡ x / 2 ^ n % 2 ^ 6
six_lem x n = bit_and-low 6 (shr x n)

low_six : (x y : ℕ) → bit_xor x y % 2 ^ 6 ≡ bit_xor (x % 2 ^ 6) (y % 2 ^ 6)
low_six x y =
    let parts : (t : ℕ) → t ≡ t / 2 ^ 6 * 2 ^ 6 + t % 2 ^ 6 = λ t. omega arith in
    omega (
      arith,
      ap₂ bit_xor (parts x) (parts y),
      bit_xor_fields 6 (x / 2 ^ 6) (x % 2 ^ 6) (y / 2 ^ 6) (y % 2 ^ 6) (omega arith) (omega arith),
      bit_xor-lt 6 (x % 2 ^ 6) (y % 2 ^ 6) (omega arith) (omega arith),
    )

six-bit_xor : (x y n : ℕ) → six (bit_xor x y) n ≡ bit_xor (six x n) (six y n)
six-bit_xor x y n = rw (
  six_lem (bit_xor x y) n,
  six_lem x n,
  six_lem y n,
  bit_xor-div n x y,
  low_six (x / 2 ^ n) (y / 2 ^ n),
)

pub groups-bit_xor :
    (a b : ℕ × ℕ) (i : ℕ)
    → groups (bit_xor a.0 b.0, bit_xor a.1 b.1) i ≡ bit_xor (groups a i) (groups b i)
unfolding groups
groups-bit_xor a b i =
    ground (arith, six-bit_xor a.0 b.0 (24 - 4 * i), six-bit_xor a.1 b.1 (28 - 4 * i))

pub groups-lt : (key : ℕ × ℕ) (i : ℕ) → groups key i < 2 ^ 6
unfolding groups
groups-lt key i = ground (arith, six_lem key.0 (24 - 4 * i), six_lem key.1 (28 - 4 * i))
