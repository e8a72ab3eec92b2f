-- ===== src/Des/Standard/Keys/Lanes.antt =====
-- Numbers put together digit by digit in three bytes and a half, as the halves of the key register
-- are in `des_setkey` (src/leo_des_crypto.c).
use leo_net.Base.{
  ℕ, zero, suc, ◌+◌, ◌-◌, ◌*◌, ◌^◌, ◌≤◌, ◌<◌, ◌≡◌, ◌∙◌, refl, ap₂, bit_or, min, arith, ltb,
  if◌then◌else◌,
}
use Prim.Native.Nat.{bit_or-bitwise}
use native.Mathlib.Nat.{one-le-pow, pow-suc, mul_comm, mul-le-mul_left, pow-le-pow_right}
use leo_net.Base.Bits.{bit_or_fields, bit_or_none}
use leo_net.Des.Octets.{below_8}

-- The digits before `k`, the first one lowest.
unfoldable pub part : ℕ → (ℕ → ℕ) → ℕ
part zero f = 0
part (suc k) f = part k f + 2 ^ k * f k

part-lt : (k : ℕ) (f : ℕ → ℕ) → ((j : ℕ) → f j < 2) → part k f < 2 ^ k
unfolding part
part-lt zero f d = omega arith
part-lt (suc k) f d = omega (
  arith,
  part-lt k f d,
  pow-suc 2 k,
  mul-le-mul_left {m = f k} {n = 1} (2 ^ k) (omega (arith, d k)),
)

-- One more digit.
part-or :
    (k : ℕ) (f : ℕ → ℕ) → ((j : ℕ) → f j < 2) → bit_or (part k f) (2 ^ k * f k) ≡ part (suc k) f
unfolding part
part-or k f d =
    let low : part k f ≡ 0 * 2 ^ k + part k f = omega arith in
    let top : 2 ^ k * f k ≡ f k * 2 ^ k + 0 = omega (arith, mul_comm (2 ^ k) (f k)) in
    ap₂ bit_or low top
    ∙ (bit_or_fields k 0 (part k f) (f k) 0 (part-lt k f d) (one-le-pow k 2 (omega arith))
        ∙ (ap₂ (λ a b. a * 2 ^ k + b) (bit_or-bitwise 0 (f k)) (bit_or_none (part k f))
            ∙ omega (arith, mul_comm (2 ^ k) (f k))))

-- Three bytes and a half.
unfoldable pub lanes : ℕ → ℕ → ℕ → ℕ → ℕ
lanes a b c n = ((a * 2 ^ 8 + b) * 2 ^ 8 + c) * 2 ^ 4 + n

lanes_or :
    (a b c n a' b' c' n' : ℕ)
    → b < 2 ^ 8
    → c < 2 ^ 8
    → n < 2 ^ 4
    → b' < 2 ^ 8
    → c' < 2 ^ 8
    → n' < 2 ^ 4
    → bit_or (lanes a b c n) (lanes a' b' c' n')
      ≡ lanes (bit_or a a') (bit_or b b') (bit_or c c') (bit_or n n')
unfolding lanes
lanes_or a b c n a' b' c' n' hb hc hn hb' hc' hn' = ground (
  arith,
  bit_or_fields 4 ((a * 2 ^ 8 + b) * 2 ^ 8 + c) n ((a' * 2 ^ 8 + b') * 2 ^ 8 + c') n',
  bit_or_fields 8 (a * 2 ^ 8 + b) c (a' * 2 ^ 8 + b') c',
  bit_or_fields 8 a b a' b',
)

-- The half byte of `C`, from the bytes from 4 on, and the one of `D`, from those before.
pub part_after-or :
    (k : ℕ) (f : ℕ → ℕ)
    → ((j : ℕ) → f j < 2)
    → k < 8
    → bit_or (part (k - 4) (λ j. f (j + 4))) (if ltb k 4 then 0 else 2 ^ (k - 4) * f k)
      ≡ part (suc k - 4) (λ j. f (j + 4))
unfolding part
part_after-or k f d =
    let g : ℕ → ℕ = λ j. f (j + 4) in
    below_8
      (λ k. bit_or (part (k - 4) g) (if ltb k 4 then 0 else 2 ^ (k - 4) * f k) ≡ part (suc k - 4) g)
      refl refl refl refl (part-or 0 g (λ j. d (j + 4))) (part-or 1 g (λ j. d (j + 4)))
      (part-or 2 g (λ j. d (j + 4))) (part-or 3 g (λ j. d (j + 4))) k

pub part_before-or :
    (k : ℕ) (f : ℕ → ℕ)
    → ((j : ℕ) → f j < 2)
    → k < 8
    → bit_or (part (min k 4) f) (if ltb k 4 then 2 ^ k * f k else 0) ≡ part (min (suc k) 4) f
unfolding part
part_before-or k f d =
    below_8
      (λ k. bit_or (part (min k 4) f) (if ltb k 4 then 2 ^ k * f k else 0) ≡ part (min (suc k) 4) f)
      (part-or 0 f d) (part-or 1 f d) (part-or 2 f d) (part-or 3 f d) (bit_or_none _)
      (bit_or_none _) (bit_or_none _) (bit_or_none _) k

pub part-small : (n k : ℕ) (f : ℕ → ℕ) → ((j : ℕ) → f j < 2) → k ≤ n → part k f < 2 ^ n
part-small n k f d h =
    omega (arith, part-lt k f d, pow-le-pow_right {n = 2} (omega arith) {i = k} {j = n} h)

place-small : (n k : ℕ) (f : ℕ → ℕ) → ((j : ℕ) → f j < 2) → k < n → 2 ^ k * f k < 2 ^ n
unfolding part
place-small n k f d h = omega (arith, part-small n (suc k) f d h)

pub after-small :
    (k : ℕ) (f : ℕ → ℕ)
    → ((j : ℕ) → f j < 2)
    → k < 8
    → (if ltb k 4 then 0 else 2 ^ (k - 4) * f k) < 2 ^ 4
after-small k f d =
    below_8 (λ k. (if ltb k 4 then 0 else 2 ^ (k - 4) * f k) < 2 ^ 4) (omega arith) (omega arith)
      (omega arith) (omega arith) (omega (arith, d 4)) (omega (arith, d 5)) (omega (arith, d 6))
      (omega (arith, d 7)) k

pub before-small :
    (k : ℕ) (f : ℕ → ℕ) → ((j : ℕ) → f j < 2) → k < 8 → (if ltb k 4 then 2 ^ k * f k else 0) < 2 ^ 4
before-small k f d =
    below_8 (λ k. (if ltb k 4 then 2 ^ k * f k else 0) < 2 ^ 4) (omega (arith, d 0))
      (omega (arith, d 1)) (omega (arith, d 2)) (omega (arith, d 3)) (omega arith) (omega arith)
      (omega arith) (omega arith) k

-- One more byte in a half.
pub lanes-part :
    (k n n' : ℕ) (p q r : ℕ → ℕ)
    → ((j : ℕ) → p j < 2)
    → ((j : ℕ) → q j < 2)
    → ((j : ℕ) → r j < 2)
    → k < 8
    → n < 2 ^ 4
    → n' < 2 ^ 4
    → bit_or
        (lanes (part k p) (part k q) (part k r) n)
        (lanes (2 ^ k * p k) (2 ^ k * q k) (2 ^ k * r k) n')
      ≡ lanes (part (suc k) p) (part (suc k) q) (part (suc k) r) (bit_or n n')
lanes-part k n n' p q r dp dq dr h hn hn' =
    lanes_or (part k p) (part k q) (part k r) n (2 ^ k * p k) (2 ^ k * q k) (2 ^ k * r k) n'
      (part-small 8 k q dq (omega arith)) (part-small 8 k r dr (omega arith)) hn
      (place-small 8 k q dq h) (place-small 8 k r dr h) hn'
    ∙ rw (part-or k p dp, part-or k q dq, part-or k r dr) refl
