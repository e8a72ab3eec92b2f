-- ===== src/Des/Standard/Keys/Schedule.antt =====
-- The shifts and PC-2 in `des_setkey` (src/leo_des_crypto.c) are those of FIPS 46-3.
use leo_net.Base.{
  ℕ, zero, suc, ◌-◌, ◌*◌, ◌^◌, ◌≤◌, ◌<◌, ◌≡◌, ◌∙◌, ap, ap₂, bit_or, shl32, shr, List, [], ◌∷◌,
  arith,
}
use leo_net.Base.Lists.{length, get_or}
use leo_net.Base.Bits.{bit_and-low, bit_or-shifted}
use leo_net.Des.{key_at}
use leo_net.Des.Octets.{below_8}
use leo_net.Des.Schedule.{
  Halves, rotate28, six_bits, round_key, round_keys, shift_halves, pc2_c, pc2_d, word_of,
}
use leo_net.Des.Schedule.Sixes.{digits_from, pick_bits-digits_from, six_bits-lt, word_of-word4}
use leo_net.Des.Standard.{groups, bit, select_from}
use leo_net.Des.Standard.Linear.{six_lem}
use leo_net.Des.Standard.Keys.{permuted_choice_2, pc2_table, left_shift, shifted}

-- The shifts are by one place or by two.
rotate28-left_shift : (n x : ℕ) → 1 ≤ n → n ≤ 2 → x < 2 ^ 28 → rotate28 x n ≡ left_shift n x
unfolding rotate28 left_shift
rotate28-left_shift zero x h l s = absurd (omega arith)
rotate28-left_shift (suc zero) x h l s =
    let e : shl32 x 1 ≡ x * 2 ^ 1 = omega arith in
    omega (
      arith,
      ap (λ t. bit_or t (shr x 27)) e,
      bit_or-shifted 1 x (shr x 27) (omega arith),
      bit_and-low 28 (bit_or (shl32 x 1) (shr x 27)),
    )
rotate28-left_shift (suc (suc zero)) x h l s =
    let e : shl32 x 2 ≡ x * 2 ^ 2 = omega arith in
    omega (
      arith,
      ap (λ t. bit_or t (shr x 26)) e,
      bit_or-shifted 2 x (shr x 26) (omega arith),
      bit_and-low 28 (bit_or (shl32 x 2) (shr x 26)),
    )
rotate28-left_shift (suc (suc (suc n))) x h l s = absurd (omega arith)

rotate28-lt : (n x : ℕ) → rotate28 x n < 2 ^ 28
unfolding rotate28
rotate28-lt n x = omega (arith, bit_and-low 28 (bit_or (shl32 x n) (shr x (28 - n))))

-- Both halves have 28 bits.
abbrev pub Small : Halves → Type 0
Small h = (h.c < 2 ^ 28) × (h.d < 2 ^ 28)

abbrev halves : ℕ → ℕ → Halves
halves c d = record { c = c; d = d }

shift_halves-Small : (h : Halves) (n : ℕ) → Small (shift_halves h n)
unfolding shift_halves
shift_halves-Small h n = (rotate28-lt n h.c, rotate28-lt n h.d)

shift_halves-left_shift :
    (h : Halves) (n : ℕ)
    → (1 ≤ n) × (n ≤ 2)
    → Small h
    → shift_halves h n ≡ halves (left_shift n h.c) (left_shift n h.d)
unfolding shift_halves
shift_halves-left_shift h n place small =
    ap₂ halves (rotate28-left_shift n h.c place.0 place.1 small.0)
      (rotate28-left_shift n h.d place.0 place.1 small.1)

six_bits-digits_from : (pc2 : List ℕ) (j x : ℕ) → six_bits pc2 j x ≡ digits_from pc2 6 (6 * j) x 0
six_bits-digits_from pc2 j x = pick_bits-digits_from pc2 6 (6 * j) x 0

-- The groups that two words hold.
word_groups :
    (a b c d a' b' c' d' : ℕ)
    → a < 2 ^ 6
    → b < 2 ^ 6
    → c < 2 ^ 6
    → d < 2 ^ 6
    → a' < 2 ^ 6
    → b' < 2 ^ 6
    → c' < 2 ^ 6
    → d' < 2 ^ 6
    → (i : ℕ) → i < 8
    → groups (word_of a b c d, word_of a' b' c' d') i
      ≡ get_or (a ∷ a' ∷ b ∷ b' ∷ c ∷ c' ∷ d ∷ d' ∷ []) i 0
unfolding groups
word_groups a b c d a' b' c' d' ha hb hc hd ha' hb' hc' hd' =
    let e = word_of-word4 a b c d ha hb hc hd in
    let e' = word_of-word4 a' b' c' d' ha' hb' hc' hd' in
    below_8
      (λ i.
        groups (word_of a b c d, word_of a' b' c' d') i
        ≡ get_or (a ∷ a' ∷ b ∷ b' ∷ c ∷ c' ∷ d ∷ d' ∷ []) i 0)
      (omega (arith, e, six_lem (word_of a b c d) 24))
      (omega (arith, e', six_lem (word_of a' b' c' d') 24))
      (omega (arith, e, six_lem (word_of a b c d) 16))
      (omega (arith, e', six_lem (word_of a' b' c' d') 16))
      (omega (arith, e, six_lem (word_of a b c d) 8))
      (omega (arith, e', six_lem (word_of a' b' c' d') 8))
      (omega (arith, e, six_lem (word_of a b c d) 0))
      (omega (arith, e', six_lem (word_of a' b' c' d') 0))

-- The groups of six bits that PC-2 picks for the two words, in the order of the groups.
picked : Halves → List ℕ
picked h =
    six_bits pc2_c 0 h.c
    ∷ six_bits pc2_c 1 h.c
    ∷ six_bits pc2_c 2 h.c
    ∷ six_bits pc2_c 3 h.c
    ∷ six_bits pc2_d 0 h.d
    ∷ six_bits pc2_d 1 h.d
    ∷ six_bits pc2_d 2 h.d
    ∷ six_bits pc2_d 3 h.d
    ∷ []

groups-round_key : (h : Halves) (i : ℕ) → i < 8 → groups (round_key h) i ≡ get_or (picked h) i 0
unfolding round_key picked
groups-round_key h =
    let c : (j : ℕ) → six_bits pc2_c j h.c < 2 ^ 6 = λ j. six_bits-lt pc2_c j h.c in
    let d : (j : ℕ) → six_bits pc2_d j h.d < 2 ^ 6 = λ j. six_bits-lt pc2_d j h.d in
    word_groups _ _ _ _ _ _ _ _ (c 0) (c 2) (d 0) (d 2) (c 1) (c 3) (d 1) (d 3)

picked-permuted_choice_2 :
    (h : Halves) → Small h → (i : ℕ) → i < 8 → get_or (picked h) i 0 ≡ permuted_choice_2 h i
unfolding permuted_choice_2 pc2_table select_from bit digits_from picked pc2_c pc2_d
picked-permuted_choice_2 h small =
    below_8 (λ i. get_or (picked h) i 0 ≡ permuted_choice_2 h i)
      (omega (arith, small, six_bits-digits_from pc2_c 0 h.c))
      (omega (arith, small, six_bits-digits_from pc2_c 1 h.c))
      (omega (arith, small, six_bits-digits_from pc2_c 2 h.c))
      (omega (arith, small, six_bits-digits_from pc2_c 3 h.c))
      (omega (arith, small, six_bits-digits_from pc2_d 0 h.d))
      (omega (arith, small, six_bits-digits_from pc2_d 1 h.d))
      (omega (arith, small, six_bits-digits_from pc2_d 2 h.d))
      (omega (arith, small, six_bits-digits_from pc2_d 3 h.d))

-- For shifts by one or by two places, each pair of words holds the groups of the standard's key.
pub round_keys-shifted :
    (shifts : List ℕ) (h : Halves) (n : ℕ)
    → ((i : ℕ) → i < length shifts → (1 ≤ get_or shifts i 0) × (get_or shifts i 0 ≤ 2))
    → Small h
    → n < length shifts
    → (i : ℕ) → i < 8
    → groups (key_at (round_keys shifts h) n) i ≡ permuted_choice_2 (shifted shifts (suc n) h) i
unfolding round_keys shifted
round_keys-shifted [] h n places small low i l = absurd (omega arith)
round_keys-shifted (k ∷ shifts) h zero places small low i l =
    groups-round_key (shift_halves h k) i l
    ∙ (picked-permuted_choice_2 (shift_halves h k) (shift_halves-Small h k) i l
        ∙ ap (λ g. permuted_choice_2 g i) (shift_halves-left_shift h k (places 0 low) small))
round_keys-shifted (k ∷ shifts) h (suc n) places small low i l =
    round_keys-shifted shifts (shift_halves h k) n (λ j m. places (suc j) (omega arith))
      (shift_halves-Small h k) (omega arith) i l
    ∙ ap (λ g. permuted_choice_2 (shifted shifts (suc n) g) i)
        (shift_halves-left_shift h k (places 0 (omega arith)) small)
