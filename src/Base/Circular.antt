-- ===== src/Base/Circular.antt =====
-- Offsets into a circular storage whose size is a power of two, from free running word counters.
use Prim.Native.Nat.{ℕ, zero, suc, ◌+◌, ◌-◌, ◌%◌, ◌^◌, ◌≤◌, ◌<◌, ◌∣◌, bit_and}
use mathlib.Core.Path.{◌≡◌, sym, ap, ◌∙◌}
use native.Mathlib.Nat.{mod-mod_of_dvd, mod-add-mod, mod-eq_of_lt, mod-eq-sub-mod, mod-lt}
use native.Mathlib.Nat.{pow-le-pow_right, pow-suc, one-le-pow, dvd_refl, dvd-mul_right_of_dvd}
use native.Mathlib.Nat.{add-suc, add-zero}
use native.Mathlib.Decide.{dec_lt}
use native.Mathlib.Omega.{arith}
use leo_net.Base.Tests.{ltb, if◌then◌else◌}
use leo_net.Base.Word.{add32, sub32}
use leo_net.Base.Bits.{bit_and-low}

-- An offset below twice the size, brought back into the storage.
abbrev pub wrap : ℕ → ℕ → ℕ
wrap size p = if ltb p size then p else p - size

pub wrap-wrap :
    (size at k i : ℕ)
    → at < size
    → k + i ≤ size
    → wrap size (wrap size (at + k) + i) ≡ wrap size (at + (k + i))
wrap-wrap size at k i o h = ground arith

two-pow-dvd : (k d : ℕ) → 2 ^ k ∣ 2 ^ (k + d)
two-pow-dvd k zero = rw add-zero (dvd_refl _)
two-pow-dvd k (suc d) = rw (add-suc, pow-suc) (dvd-mul_right_of_dvd (2 ^ k) (two-pow-dvd k d) 2)

-- A word's low bits are those of the number that it was cut from.
word-mod : (k x : ℕ) → k ≤ 32 → x % 2 ^ 32 % 2 ^ k ≡ x % 2 ^ k
word-mod k x h = mod-mod_of_dvd (2 ^ k) x divides
  where
    divides : 2 ^ k ∣ 2 ^ 32
    divides = let e : k + (32 - k) ≡ 32 = omega arith in rw e at (two-pow-dvd k (32 - k))

round-mod : (size m u : ℕ) → m < size → u ≤ size → (m + u) % size ≡ wrap size (m + u)
round-mod size m u p h = elim (dec_lt (m + u) size) [
  | yes inside ↦ ground (arith, mod-eq_of_lt inside)
  | no out ↦ ground (
    arith,
    mod-eq-sub-mod {n = m + u} {m = size} (omega arith),
    mod-eq_of_lt {n = m + u - size} {m = size} (omega arith),
  )
]

-- At most one round further on.
wrap-mod : (size base u : ℕ) → 0 < size → u ≤ size → (base + u) % size ≡ wrap size (base % size + u)
wrap-mod size base u p h =
    sym (mod-add-mod base size u) ∙ round-mod size (base % size) u (mod-lt base p) h

module _ (k size : ℕ) (power : size ≡ 2 ^ k) (small : k ≤ 30) where
  pub size_bounds : (0 < size) × (size ≤ 2 ^ 30)
  size_bounds = rw power (one-le-pow k 2 (omega arith), pow-le-pow_right (omega arith) small)

  -- `p & (size - 1)`
  pub mask : (p : ℕ) → bit_and p (sub32 size 1) ≡ p % size
  mask p =
      let e : sub32 size 1 ≡ 2 ^ k - 1 = omega (arith, size_bounds, power) in
      rw e (bit_and-low k p ∙ ap (λ s. p % s) (sym power))

  -- A counter that is moved on by at most one round.
  pub advance : (p n : ℕ) → n ≤ size → add32 p n % size ≡ wrap size (p % size + n)
  advance p n h =
      ap (λ s. (p + n) % 2 ^ 32 % s) power
      ∙ (word-mod k (p + n) (omega arith) ∙ ap (λ s. (p + n) % s) (sym power))
      ∙ wrap-mod size p n size_bounds.0 h
