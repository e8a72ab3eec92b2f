-- ===== src/Des/Schedule/Sixes.antt =====
-- The key words that `des_setkey` makes (src/leo_des_crypto.c): sixteen pairs, each word four bytes
-- of six bits.
use leo_net.Base.{
  ℕ, zero, suc, ◌+◌, ◌*◌, ◌/◌, ◌%◌, ◌^◌, ◌≤◌, ◌<◌, ◌≡◌, ◌∙◌, refl, ap, bit_and, bit_or, some, List,
  [], ◌∷◌, arith, ◌==◌, if◌then◌else◌, shl32, shr, Bool-cases, inl, inr,
}
use native.Mathlib.Nat.{pow-suc, one-le-pow, mul-le-mul_right}
use leo_net.Base.Lists.{length, get_or}
use leo_net.Base.Bits.{bit_and-low, bit_or-shifted}
use leo_net.Base.Memory.{load_block_lem, slice}
use leo_net.Base.Endian.{word4}
use leo_net.Des.Schedule.{
  Halves, pick_bits, six_bits, word_of, round_key, round_keys, nshifts, shift_halves, choose,
  des_setkey, pc2_c, pc2_d,
}

-- The chosen bits as binary digits behind `q`, the first one highest.
unfoldable pub digits_from : List ℕ → ℕ → ℕ → ℕ → ℕ → ℕ
digits_from pc2 zero p x q = q
digits_from pc2 (suc n) p x q = digits_from pc2 n (p + 1) x (2 * q + x / 2 ^ get_or pc2 p 0 % 2)

pub pick_bits-digits_from :
    (pc2 : List ℕ) (n p x q : ℕ) → pick_bits pc2 n p x (q * 2 ^ n) ≡ digits_from pc2 n p x q
unfolding pick_bits digits_from
pick_bits-digits_from pc2 zero p x q = omega arith
pick_bits-digits_from pc2 (suc n) p x q =
    let bit = bit_and (shr x (get_or pc2 p 0)) 1 in
    let e : bit ≡ x / 2 ^ get_or pc2 p 0 % 2 = bit_and-low 1 (shr x (get_or pc2 p 0)) in
    let power = pow-suc 2 n in
    let upper : q * 2 ^ suc n ≡ 2 * (q * 2 ^ n) = omega (arith, ap (λ (k : ℕ). q * k) power) in
    let set : (if bit == 0 then q * 2 ^ suc n else bit_or (q * 2 ^ suc n) (2 ^ n))
        ≡ (2 * q + x / 2 ^ get_or pc2 p 0 % 2) * 2 ^ n =
      elim (Bool-cases (bit == 0)) [
        | inl off ↦ rw off (
            let zeroed : x / 2 ^ get_or pc2 p 0 % 2 ≡ 0 = ground (arith, e) in
            rw zeroed (ground (arith, upper)))
        | inr on ↦ rw on (
            let one : x / 2 ^ get_or pc2 p 0 % 2 ≡ 1 = ground (arith, e) in
            let joined = bit_or-shifted (suc n) q (2 ^ n) (omega (arith, power, one-le-pow n 2)) in
            rw (one, joined) (ground (arith, upper)))
      ] in
    ap (pick_bits pc2 n (p + 1) x) set
    ∙ pick_bits-digits_from pc2 n (p + 1) x (2 * q + x / 2 ^ get_or pc2 p 0 % 2)

digits_from-lt : (pc2 : List ℕ) (n p x q : ℕ) → digits_from pc2 n p x q < (q + 1) * 2 ^ n
unfolding digits_from
digits_from-lt pc2 zero p x q = omega arith
digits_from-lt pc2 (suc n) p x q =
    let t = x / 2 ^ get_or pc2 p 0 % 2 in
    let upper : (q + 1) * 2 ^ suc n ≡ 2 * ((q + 1) * 2 ^ n) =
      omega (arith, ap (λ (k : ℕ). (q + 1) * k) (pow-suc 2 n)) in
    let more = digits_from-lt pc2 n (p + 1) x (2 * q + t) in
    let whole : (2 * q + t + 1) * 2 ^ n ≤ (2 * q + 2) * 2 ^ n =
      mul-le-mul_right (2 ^ n) (omega arith) in
    omega (arith, upper, more, whole)

pub six_bits-lt : (pc2 : List ℕ) (j x : ℕ) → six_bits pc2 j x < 2 ^ 6
six_bits-lt pc2 j x =
    let e = pick_bits-digits_from pc2 6 (6 * j) x 0 in
    let low = digits_from-lt pc2 6 (6 * j) x 0 in omega arith

-- Four bytes of six bits.
pub record IsSixes (w : ℕ) : Type 0 where
  pub first : w / 2 ^ 24 < 2 ^ 6
  pub second : w / 2 ^ 16 % 2 ^ 8 < 2 ^ 6
  pub third : w / 2 ^ 8 % 2 ^ 8 < 2 ^ 6
  pub fourth : w % 2 ^ 8 < 2 ^ 6

pub word_of-word4 :
    (a b c d : ℕ) → a < 2 ^ 6 → b < 2 ^ 6 → c < 2 ^ 6 → d < 2 ^ 6 → word_of a b c d ≡ word4 d c b a
word_of-word4 a b c d ha hb hc hd =
    let e₁ : shl32 a 24 ≡ a * 2 ^ 24 = omega arith in
    let e₂ : shl32 b 16 ≡ b * 2 ^ 16 = omega arith in
    let e₃ : shl32 c 8 ≡ c * 2 ^ 8 = omega arith in
    let o₁ = bit_or-shifted 24 a (b * 2 ^ 16) (omega arith) in
    let s₂ : a * 2 ^ 24 + b * 2 ^ 16 ≡ (a * 2 ^ 8 + b) * 2 ^ 16 = omega arith in
    let o₂ = bit_or-shifted 16 (a * 2 ^ 8 + b) (c * 2 ^ 8) (omega arith) in
    let s₃ : (a * 2 ^ 8 + b) * 2 ^ 16 + c * 2 ^ 8 ≡ ((a * 2 ^ 8 + b) * 2 ^ 8 + c) * 2 ^ 8 =
      omega arith in
    let o₃ = bit_or-shifted 8 ((a * 2 ^ 8 + b) * 2 ^ 8 + c) d (omega arith) in
    rw (e₁, e₂, e₃, o₁, s₂, o₂, s₃, o₃) refl

word_of-IsSixes :
    (a b c d : ℕ) → a < 2 ^ 6 → b < 2 ^ 6 → c < 2 ^ 6 → d < 2 ^ 6 → IsSixes (word_of a b c d)
word_of-IsSixes a b c d ha hb hc hd = rw (word_of-word4 a b c d ha hb hc hd) (record {
  first = omega arith;
  second = omega arith;
  third = omega arith;
  fourth = omega arith;
})

round_keys-IsSixes :
    (shifts : List ℕ) (h : Halves)
    → (length (round_keys shifts h) ≡ length shifts)
      × ((i : ℕ)
          → i < length shifts
          → IsSixes (get_or (round_keys shifts h) i (0, 0)).0
            × IsSixes (get_or (round_keys shifts h) i (0, 0)).1)
unfolding round_keys round_key
round_keys-IsSixes [] h = (refl, λ i low. absurd (omega arith))
round_keys-IsSixes (n ∷ shifts) h =
    let g = shift_halves h n in
    let more = round_keys-IsSixes shifts g in
    let c : (j : ℕ) → six_bits pc2_c j g.c < 2 ^ 6 = λ j. six_bits-lt pc2_c j g.c in
    let d : (j : ℕ) → six_bits pc2_d j g.d < 2 ^ 6 = λ j. six_bits-lt pc2_d j g.d in
    (
      ap suc more.0,
      λ i.
          elim i
            as (λ i.
              i < suc (length shifts)
              → IsSixes (get_or (round_keys (n ∷ shifts) h) i (0, 0)).0
                × IsSixes (get_or (round_keys (n ∷ shifts) h) i (0, 0)).1) [
                  | zero ↦ λ low. (
                    word_of-IsSixes _ _ _ _ (c 0) (c 2) (d 0) (d 2),
                    word_of-IsSixes _ _ _ _ (c 1) (c 3) (d 1) (d 3),
                  )
                  | suc i ↦ λ low. more.1 i (omega arith)
                ],
    )

-- From a key of at least eight bytes `des_setkey` makes sixteen pairs of words, each of them four
-- bytes of six bits.
pub des_setkey-IsSixes :
    (key : List ℕ)
    → 8 ≤ length key
    → (keys : List (ℕ × ℕ)) × (des_setkey key ≡ some keys)
      × (length keys ≡ 16)
      × ((i : ℕ) → i < 16 → IsSixes (get_or keys i (0, 0)).0 × IsSixes (get_or keys i (0, 0)).1)
unfolding des_setkey nshifts
des_setkey-IsSixes key long =
    let h = choose 0 (slice 0 8 key) (record { c = 0; d = 0 }) in
    let (same, sixes) = round_keys-IsSixes nshifts h in
    (round_keys nshifts h, rw (load_block_lem key 0 8 long) refl, same, sixes)
