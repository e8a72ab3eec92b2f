-- ===== src/Ring/Construct.antt =====
-- The constructor of `ring_buffer` (src/ring_buffer.cpp) and its test `is_power_of_2`.
use native.Mathlib.Nat.{mod_self, pow-suc, one-le-pow, pow-le-pow_right}
use mathlib.Core.WellFounded
use mathlib.Core.Path.{subst}
use native.Mathlib.Decide.{dec_lt}
use leo_net.Base.{ℕ, suc, ◌+◌, ◌-◌, ◌*◌, ◌/◌, ◌%◌, ◌^◌, ◌≤◌, ◌<◌, ◌≡◌, ◌∙◌, refl, ◌↔◌}
use leo_net.Base.{min, List, [], some, true, arith, sub32, bit_and, ◌==◌, Bool-cases, inl, inr}
use leo_net.Base.Bits.{bit_and_halves, bit_and-low, lt_wf, bit_and_self}
use leo_net.Base.Lists.{length}
use leo_net.Ring.{RingBuffer, is_power_of_2, construct}
use leo_net.Ring.Valid.{IsValid, contents}
use leo_net.Ring.Window.{window}

-- A number with no bit in common with its predecessor is a power of two.
power_of_no_common : (x : ℕ) → 0 < x → bit_and x (x - 1) ≡ 0 → (k : ℕ) × (x ≡ 2 ^ k)
power_of_no_common x =
    WellFounded.induction lt_wf {C = λ x. 0 < x → bit_and x (x - 1) ≡ 0 → (k : ℕ) × (x ≡ 2 ^ k)} x
      λ n ih p e.
        let step : bit_and n (n - 1)
            ≡ min (n % 2) ((n - 1) % 2) + 2 * bit_and (n / 2) ((n - 1) / 2) =
          bit_and_halves n (n - 1) in
        elim (Bool-cases (n % 2 == 0)) [
          | inl even ↦
              let d : (n - 1) / 2 ≡ n / 2 - 1 = ground arith in
              let (k, q) = ih (n / 2) (omega arith) (ground arith) (ground (arith, step, d)) in
              (suc k, ground (arith, pow-suc 2 k, q))
          | inr odd ↦
              let d : (n - 1) / 2 ≡ n / 2 = ground arith in
              (0, ground (arith, step, d, bit_and_self (n / 2)))
        ]

power_no_common : (k : ℕ) → bit_and (2 ^ k) (2 ^ k - 1) ≡ 0
power_no_common k = bit_and-low k (2 ^ k) ∙ mod_self (2 ^ k)

-- `is_power_of_2` accepts exactly the powers of two.
pub is_power_of_2_iff : (x : ℕ) → x < 2 ^ 32 → (is_power_of_2 x ≡ true) ↔ ((k : ℕ) × (x ≡ 2 ^ k))
unfolding is_power_of_2
is_power_of_2_iff x h = (
  λ accepted.
      let p : 0 < x = ground arith in
      let less : sub32 x 1 ≡ x - 1 = omega arith in power_of_no_common x p (ground (arith, less)),
  λ (k, e).
      let p : 0 < x = rw e (one-le-pow k 2 (omega arith)) in
      let less : sub32 x 1 ≡ x - 1 = omega arith in
      let apart : bit_and x (x - 1) ≡ 0 = rw e (power_no_common k) in ground (arith, less, apart),
)

exponent_of_power : (k : ℕ) → 2 ^ k < 2 ^ 31 → k ≤ 30
exponent_of_power k h = elim (dec_lt 30 k) [
  | yes large ↦ absurd (omega (arith, pow-le-pow_right {n = 2} (omega arith) large))
  | no small ↦ omega arith
]

fresh : (ℕ → List ℕ) → ℕ → RingBuffer
fresh new_char buf_size = record {
  buffer_size = buf_size;
  ring_buffer = new_char buf_size;
  write_p = 0;
  read_p = 0;
}

-- With an allocator that gives as many bytes as are asked for, the constructor succeeds exactly
-- at the powers of two that a positive `int` can hold.
pub construct_iff :
    (new_char : ℕ → List ℕ) (buf_size : ℕ)
    → buf_size < 2 ^ 32
    → ((r : RingBuffer) × (construct new_char buf_size ≡ some r))
      ↔ ((k : ℕ) × (k ≤ 30) × (buf_size ≡ 2 ^ k))
unfolding construct fresh
construct_iff new_char buf_size h = (
  λ (r, e).
      let (k, d) = (is_power_of_2_iff buf_size h).0 (ground arith) in
      let low : buf_size < 2 ^ 31 = ground arith in (k, exponent_of_power k (rw d at low), d),
  λ (k, small, e).
      let low : 2 ^ k ≤ 2 ^ 30 = pow-le-pow_right (omega arith) small in
      (fresh new_char buf_size, ground (arith, (is_power_of_2_iff buf_size h).1 (k, e), low)),
)

-- A buffer that was constructed is valid, holds nothing, and has the size asked for.
pub construct-IsValid :
    (new_char : ℕ → List ℕ) (buf_size : ℕ) {r : RingBuffer}
    → ((n : ℕ) → length (new_char n) ≡ n)
    → buf_size < 2 ^ 32
    → construct new_char buf_size ≡ some r
    → IsValid r × (contents r ≡ []) × (r.buffer_size ≡ buf_size)
unfolding construct fresh
construct-IsValid new_char buf_size {r} allocates h e =
    let (k, small, power) = (construct_iff new_char buf_size h).0 (r, e) in
    subst (λ r. IsValid r × (contents r ≡ []) × (r.buffer_size ≡ buf_size)) made
      (
        record {
          exponent = k;
          power = power;
          small = small;
          storage = allocates buf_size;
          write_word = omega arith;
          read_word = omega arith;
          held = omega arith;
        },
        unfold contents window in refl,
        refl,
      )
  where
    made : fresh new_char buf_size ≡ r
    made = ground arith
