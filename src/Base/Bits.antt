-- ===== src/Base/Bits.antt =====
-- Laws of `bit_and`, `bit_or` and `bit_xor` at variables, from one equation for the lowest digit.
use Prim.Native.Nat.{ℕ, zero, suc, ◌+◌, ◌-◌, ◌*◌, ◌/◌, ◌%◌, ◌^◌, ◌≤◌, ◌<◌, min, max}
use Prim.Native.Nat.{bit_and, bit_or, bit_xor, digits, bitwise, differ}
use Prim.Native.Nat.{bit_and-bitwise, bit_or-bitwise, bit_xor-bitwise}
use mathlib.Core.Path.{◌≡◌, refl, ap}
use mathlib.Core.WellFounded
use mathlib.Core.WellFounded.{Acc}
use native.Mathlib.Nat.{le_refl, pow-suc, one-le-pow}
use native.Mathlib.Omega.{arith}

module _ (low : ℕ → ℕ) (digit : ℕ → ℕ → ℕ) where
  -- Fuel beyond the number itself is never used.
  more_fuel : (m n x y : ℕ) → x ≤ m → m ≤ n → digits low digit n x y ≡ digits low digit m x y
  more_fuel zero zero x y small grows = refl
  more_fuel zero (suc n) zero y small grows = refl
  more_fuel zero (suc n) (suc x) y small grows = elim small [ ]
  more_fuel (suc m) zero x y small grows = elim grows [ ]
  more_fuel (suc m) (suc n) zero y small grows = refl
  more_fuel (suc m) (suc n) (suc x) y small grows =
      ap (λ t. t * 2 + digit (suc x % 2) (y % 2))
        (more_fuel m n (suc x / 2) (y / 2) (omega arith) (omega arith))

  lowest_digit :
      (x y : ℕ)
      → bitwise low digit (suc x) y
        ≡ bitwise low digit (suc x / 2) (y / 2) * 2 + digit (suc x % 2) (y % 2)
  lowest_digit x y =
      omega (arith, more_fuel (suc x / 2) x (suc x / 2) (y / 2) (omega arith) (omega arith))

-- A bitwise operator is the digit of the lowest bits below the operator on the halves.
pub bit_and_halves : (a b : ℕ) → bit_and a b ≡ min (a % 2) (b % 2) + 2 * bit_and (a / 2) (b / 2)
bit_and_halves a b =
    elim a as (λ a. bit_and a b ≡ min (a % 2) (b % 2) + 2 * bit_and (a / 2) (b / 2)) [
      | zero ↦ simp bit_and-bitwise (omega arith)
      | suc n ↦ simp bit_and-bitwise omega (arith, lowest_digit (λ y. 0) min n b)
    ]

pub bit_or_halves : (a b : ℕ) → bit_or a b ≡ max (a % 2) (b % 2) + 2 * bit_or (a / 2) (b / 2)
bit_or_halves a b = elim a as (λ a. bit_or a b ≡ max (a % 2) (b % 2) + 2 * bit_or (a / 2) (b / 2)) [
  | zero ↦ simp bit_or-bitwise (omega arith)
  | suc n ↦ simp bit_or-bitwise omega (arith, lowest_digit (λ y. y) max n b)
]

-- Two digits differ.
differ_digits : (a b : ℕ) → a < 2 → b < 2 → differ a b ≡ (a + b) % 2
differ_digits zero b p q = omega arith
differ_digits (suc zero) zero p q = refl
differ_digits (suc zero) (suc zero) p q = refl
differ_digits (suc zero) (suc (suc b)) p q = absurd (omega arith)
differ_digits (suc (suc a)) b p q = absurd (omega arith)

pub bit_xor_step : (a b : ℕ) → bit_xor a b ≡ bit_xor (a / 2) (b / 2) * 2 + (a + b) % 2
bit_xor_step zero b = simp bit_xor-bitwise (omega arith)
bit_xor_step (suc a) b = simp bit_xor-bitwise omega (
  arith,
  lowest_digit (λ y. y) differ a b,
  differ_digits (suc a % 2) (b % 2) (omega arith) (omega arith),
)

acc_below : (k n : ℕ) → n < k → Acc ◌<◌ n
acc_below zero n h = absurd (omega arith)
acc_below (suc k) n h = Acc.intro n (λ m m<n. acc_below k m (omega arith))

pub lt_wf : WellFounded.WellFounded ◌<◌
lt_wf = record { apply = λ n. acc_below (suc n) n (le_refl _) }

-- Halving both operands reaches 0.
pub halving {ℓ} :
    (P : ℕ → ℕ → Type ℓ)
    → ((b : ℕ) → P 0 b)
    → ((a b : ℕ) → P (suc a / 2) (b / 2) → P (suc a) b)
    → (a b : ℕ) → P a b
halving P base step a = WellFounded.induction lt_wf {C = λ n. (b : ℕ) → P n b} a λ n ih.
    elim n as (λ n. ((m : ℕ) → m < n → (b : ℕ) → P m b) → (b : ℕ) → P n b) [
      | zero ↦ λ ih b. base b
      | suc k ↦ λ ih b. step k b (ih (suc k / 2) (omega arith) (b / 2))
    ]
      ih

pub bit_xor-zero : (a : ℕ) → bit_xor a 0 ≡ a
bit_xor-zero a =
    halving (λ a b. bit_xor a 0 ≡ a) (λ b. refl)
      (λ a b ih. omega (arith, bit_xor_step (suc a) 0, ih)) a 0

pub zero-bit_xor : (b : ℕ) → bit_xor 0 b ≡ b
zero-bit_xor b = bit_xor-bitwise 0 b

pub bit_or_none : (a : ℕ) → bit_or a 0 ≡ a
bit_or_none a =
    halving (λ a b. bit_or a 0 ≡ a) (λ b. refl)
      (λ a b ih. omega (arith, bit_or_halves (suc a) 0, ih)) a 0

pub bit_xor_half : (a b : ℕ) → bit_xor a b / 2 ≡ bit_xor (a / 2) (b / 2)
bit_xor_half a b = omega (arith, bit_xor_step a b)

pub bit_xor_parity : (a b : ℕ) → bit_xor a b % 2 ≡ (a + b) % 2
bit_xor_parity a b = omega (arith, bit_xor_step a b)

pub bit_xor_comm : (a b : ℕ) → bit_xor a b ≡ bit_xor b a
bit_xor_comm =
    halving (λ a b. bit_xor a b ≡ bit_xor b a) (λ b. cc (zero-bit_xor b, bit_xor-zero b))
      (λ a b ih. omega (arith, bit_xor_step (suc a) b, bit_xor_step b (suc a), ih))

pub bit_xor_assoc : (a b c : ℕ) → bit_xor (bit_xor a b) c ≡ bit_xor a (bit_xor b c)
bit_xor_assoc =
    halving (λ a b. (c : ℕ) → bit_xor (bit_xor a b) c ≡ bit_xor a (bit_xor b c))
      (λ b c. cc (zero-bit_xor b, zero-bit_xor (bit_xor b c)))
      λ a b ih c. ground (
        arith,
        bit_xor_step (bit_xor (suc a) b) c,
        bit_xor_step (suc a) (bit_xor b c),
        bit_xor_half (suc a) b,
        bit_xor_half b c,
        bit_xor_parity (suc a) b,
        bit_xor_parity b c,
        ih (c / 2),
      )

pub bit_xor_self : (a : ℕ) → bit_xor a a ≡ 0
bit_xor_self a = WellFounded.induction lt_wf {C = λ n. bit_xor n n ≡ 0} a λ n ih.
    elim n as (λ n. ((m : ℕ) → m < n → bit_xor m m ≡ 0) → bit_xor n n ≡ 0) [
      | zero ↦ λ ih. refl
      | suc k ↦ λ ih. omega (arith, bit_xor_step (suc k) (suc k), ih (suc k / 2) (omega arith))
    ]
      ih

-- Masking twice with the same word undoes the first.
pub bit_xor_cancel : (a b : ℕ) → bit_xor (bit_xor a b) b ≡ a
bit_xor_cancel a b = rw (bit_xor_assoc, bit_xor_self, bit_xor-zero)

-- What holds of every operator that works digit by digit: it acts on the low `k` bits and on
-- those above them apart.
module _ (op digit : ℕ → ℕ → ℕ)
    (halves : (a b : ℕ) → op a b ≡ digit (a % 2) (b % 2) + 2 * op (a / 2) (b / 2))
    (nothing : op 0 0 ≡ 0) where
  split_at :
      (k q r p s : ℕ)
      → r < 2 ^ k
      → s < 2 ^ k
      → op (q * 2 ^ k + r) (p * 2 ^ k + s) ≡ op q p * 2 ^ k + op r s
  split_at zero q r p s hr hs =
      let e : r ≡ 0 = omega arith in
      let d : s ≡ 0 = omega arith in rw (e, d) (ground (arith, nothing))
  split_at (suc k) q r p s hr hs =
      let power : 2 ^ suc k ≡ 2 ^ k * 2 = omega (arith, pow-suc 2 k) in
      let upper : (t : ℕ) → t * 2 ^ suc k ≡ t * 2 ^ k * 2 =
        λ t. omega (arith, ap (λ (u : ℕ). t * u) power) in
      ground (
        arith,
        halves (q * 2 ^ suc k + r) (p * 2 ^ suc k + s),
        halves r s,
        upper q,
        upper p,
        upper (op q p),
        split_at k q (r / 2) p (s / 2) (omega (arith, power)) (omega (arith, power)),
      )

pub bit_xor-lt : (k a b : ℕ) → a < 2 ^ k → b < 2 ^ k → bit_xor a b < 2 ^ k
bit_xor-lt zero a b ha hb =
    let e : a ≡ 0 = omega arith in let d : b ≡ 0 = omega arith in rw (e, d) (omega arith)
bit_xor-lt (suc k) a b ha hb = omega (
  arith,
  bit_xor_step a b,
  pow-suc 2 k,
  bit_xor-lt k (a / 2) (b / 2) (omega (arith, pow-suc 2 k)) (omega (arith, pow-suc 2 k)),
)

bit_xor_halves : (a b : ℕ) → bit_xor a b ≡ (a % 2 + b % 2) % 2 + 2 * bit_xor (a / 2) (b / 2)
bit_xor_halves a b = omega (arith, bit_xor_step a b)

pub bit_xor_fields :
    (k q r p s : ℕ)
    → r < 2 ^ k
    → s < 2 ^ k
    → bit_xor (q * 2 ^ k + r) (p * 2 ^ k + s) ≡ bit_xor q p * 2 ^ k + bit_xor r s
bit_xor_fields = split_at bit_xor (λ a b. (a + b) % 2) bit_xor_halves refl

pub bit_or_fields :
    (k q r p s : ℕ)
    → r < 2 ^ k
    → s < 2 ^ k
    → bit_or (q * 2 ^ k + r) (p * 2 ^ k + s) ≡ bit_or q p * 2 ^ k + bit_or r s
bit_or_fields = split_at bit_or max bit_or_halves refl

-- Or-ing a number below `2 ^ k` into a multiple of it adds it.
pub bit_or-shifted : (k q r : ℕ) → r < 2 ^ k → bit_or (q * 2 ^ k) r ≡ q * 2 ^ k + r
bit_or-shifted k q r small = ground (
  arith,
  split_at bit_or max bit_or_halves refl k q 0 0 r (one-le-pow k 2 (omega arith)) small,
  bit_or_none q,
  bit_or-bitwise 0 r,
)

-- A mask of `k` low ones keeps what fits under it.
bit_and-ones : (k r : ℕ) → r < 2 ^ k → bit_and r (2 ^ k - 1) ≡ r
bit_and-ones zero r small = let e : r ≡ 0 = omega arith in rw e refl
bit_and-ones (suc k) r small =
    let power : 2 ^ suc k ≡ 2 ^ k * 2 = omega (arith, pow-suc 2 k) in
    ground (
      arith,
      power,
      one-le-pow k 2,
      bit_and_halves r (2 ^ suc k - 1),
      bit_and-ones k (r / 2) (omega (arith, power)),
    )

bit_and_none : (a : ℕ) → bit_and a 0 ≡ 0
bit_and_none a =
    halving (λ a b. bit_and a 0 ≡ 0) (λ b. refl)
      (λ a b ih. omega (arith, bit_and_halves (suc a) 0, ih)) a 0

-- So masking with those ones is the remainder by `2 ^ k`.
pub bit_and-low : (k a : ℕ) → bit_and a (2 ^ k - 1) ≡ a % 2 ^ k
bit_and-low k a = ground (
  arith,
  one-le-pow k 2,
  split_at bit_and min bit_and_halves refl k (a / 2 ^ k) (a % 2 ^ k) 0 (2 ^ k - 1),
  bit_and_none (a / 2 ^ k),
  bit_and-ones k (a % 2 ^ k),
)

pub bit_and_self : (a : ℕ) → bit_and a a ≡ a
bit_and_self a = WellFounded.induction lt_wf {C = λ n. bit_and n n ≡ n} a λ n ih.
    elim n as (λ n. ((m : ℕ) → m < n → bit_and m m ≡ m) → bit_and n n ≡ n) [
      | zero ↦ λ ih. refl
      | suc k ↦ λ ih. omega (arith, bit_and_halves (suc k) (suc k), ih (suc k / 2) (omega arith))
    ]
      ih
