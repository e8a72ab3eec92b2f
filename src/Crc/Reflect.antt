-- ===== src/Crc/Reflect.antt =====
-- `reflect` (src/leo_dof_crypto.c) reverses the low bits of a word.
use native.Mathlib.Nat.{zero-mul, zero-add, pow-suc, one-le-pow, pow-le-pow_right}
use leo_net.Base.{
  Bool-cases, inl, inr, ℕ, zero, suc, ◌+◌, ◌-◌, ◌*◌, ◌/◌, ◌%◌, ◌^◌, ◌≤◌, ◌<◌, ◌≡◌, ◌∙◌, refl, ap,
  bit_and, bit_or, arith, shl32, ◌==◌, if◌then◌else◌,
}
use leo_net.Base.Bits.{bit_or-shifted, bit_and-low}
use leo_net.Crc.{reflect, reflect_loop}

-- The `c` low bits of `l`, the lowest first.
pub reverse_bits : ℕ → ℕ → ℕ
reverse_bits zero l = 0
reverse_bits (suc c) l = l % 2 * 2 ^ c + reverse_bits c (l / 2)

pub reverse_bits-lt : (c l : ℕ) → reverse_bits c l < 2 ^ c
unfolding reverse_bits
reverse_bits-lt zero l = omega arith
reverse_bits-lt (suc c) l = grind (arith, reverse_bits-lt c (l / 2), pow-suc 2 c)

-- One round places the lowest bit of `l` below those that were placed, which `q` holds.
placed :
    (left q l : ℕ)
    → left < 32
    → (if bit_and l 1 == 0 then q * 2 ^ suc left else bit_or (q * 2 ^ suc left) (shl32 1 left))
      ≡ (2 * q + l % 2) * 2 ^ left
placed left q l h =
    let fits : 2 ^ left < 2 ^ 32 = omega (
      arith,
      pow-le-pow_right {n = 2} (omega arith) h,
      pow-suc 2 left,
      one-le-pow left 2 (omega arith),
    ) in
    let double : q * 2 ^ suc left ≡ 2 * (q * 2 ^ left) =
      omega (arith, ap (λ (t : ℕ). q * t) (pow-suc 2 left)) in
    let bit : bit_and l 1 ≡ l % 2 = bit_and-low 1 l in
    elim (Bool-cases (l % 2 == 0)) [
      | inl clear ↦ let e : l % 2 ≡ 0 = ground arith in rw (bit, clear, double, e) (omega arith)
      | inr set ↦
          let e : l % 2 ≡ 1 = ground arith in
          let one : shl32 1 left ≡ 2 ^ left = omega arith in
          rw
            (
              bit,
              set,
              one,
              bit_or-shifted (suc left) q (2 ^ left)
                  (omega (arith, pow-suc 2 left, one-le-pow left 2 (omega arith))),
              double,
              e,
            )
            (omega arith)
    ]

reflect_loop-eq :
    (left i c q l : ℕ)
    → i + left ≡ c + 1
    → c ≤ 32
    → 1 ≤ i
    → reflect_loop left i l (q * 2 ^ left) c ≡ q * 2 ^ left + reverse_bits left l
unfolding reflect_loop reverse_bits
reflect_loop-eq zero i c q l e h p = ground arith
reflect_loop-eq (suc left) i c q l e h p =
    let at : c - i ≡ left = omega arith in
    rw
      (
        at,
        placed left q l (omega arith),
        reflect_loop-eq left (i + 1) c (2 * q + l % 2) (l / 2) (omega arith) h (omega arith),
      )
      (omega (arith, ap (λ (t : ℕ). q * t) (pow-suc 2 left)))

-- Up to 32 bits, `reflect` reverses the order of the low `c` bits and drops the others.
pub reflect-reverse_bits : (l c : ℕ) → c ≤ 32 → reflect l c ≡ reverse_bits c l
unfolding reflect
reflect-reverse_bits l c h =
    simp (zero-mul, zero-add) at (reflect_loop-eq c 1 c 0 l (omega arith) h (omega arith))

-- The bit on top comes out lowest.
reverse_bits_top :
    (c b r : ℕ)
    → b < 2
    → r < 2 ^ c
    → reverse_bits (suc c) (b * 2 ^ c + r) ≡ 2 * reverse_bits c r + b
unfolding reverse_bits
reverse_bits_top zero b r hb hr = omega arith
reverse_bits_top (suc c) b r hb hr =
    let low : (b * 2 ^ suc c + r) % 2 ≡ r % 2 =
      omega (arith, ap (λ (t : ℕ). b * t) (pow-suc 2 c)) in
    let high : (b * 2 ^ suc c + r) / 2 ≡ b * 2 ^ c + r / 2 =
      omega (arith, ap (λ (t : ℕ). b * t) (pow-suc 2 c)) in
    rw (low, high, reverse_bits_top c b (r / 2) hb (omega (arith, pow-suc 2 c)), pow-suc 2 c)
      (omega arith)

reverse_bits-suc : (c l : ℕ) → reverse_bits (suc c) l ≡ l % 2 * 2 ^ c + reverse_bits c (l / 2)
unfolding reverse_bits
reverse_bits-suc c l = refl

reverse_bits_twice : (c l : ℕ) → l < 2 ^ c → reverse_bits c (reverse_bits c l) ≡ l
reverse_bits_twice zero l h = unfold reverse_bits in omega arith
reverse_bits_twice (suc c) l h =
    ap (reverse_bits (suc c)) (reverse_bits-suc c l)
    ∙ reverse_bits_top c (l % 2) (reverse_bits c (l / 2)) (omega arith) (reverse_bits-lt c (l / 2))
    ∙ omega (arith, reverse_bits_twice c (l / 2) (omega (arith, pow-suc 2 c)))

-- `reflect` undoes itself on a word of `c` bits.
pub reflect-reflect : (l c : ℕ) → c ≤ 32 → l < 2 ^ c → reflect (reflect l c) c ≡ l
reflect-reflect l c h fits =
    reflect-reverse_bits (reflect l c) c h
    ∙ ap (reverse_bits c) (reflect-reverse_bits l c h)
    ∙ reverse_bits_twice c l fits
