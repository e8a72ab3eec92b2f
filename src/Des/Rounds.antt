-- ===== src/Des/Rounds.antt =====
-- The rounds of DES (src/leo_des_crypto.c): a round is undone by a round with the same key words
-- after the two words are exchanged, and so are all sixteen in the opposite order.
use leo_net.Base.{
  ℕ, zero, suc, ◌+◌, ◌^◌, ◌<◌, ◌≡◌, ◌∙◌, refl, ap, true, bit_and, bit_xor, shr, ltb, ltb→lt, List,
  arith, all_indices, test_from, all_indices-passes,
}
use leo_net.Base.Bits.{bit_and-low, bit_xor-lt, bit_xor_assoc, zero-bit_xor, bit_xor_cancel}
use leo_net.Des.Boxes.{psboxes}
use leo_net.Des.{Words, ps, substitute, crypt_round, rounds_up, rounds_down, key_at, rol1, ror4}
use leo_net.Des.Permute.{words}
use leo_net.Des.Inverse.{swap}

boxes_small : all_indices (λ i. all_indices (λ j. ltb (ps i j) (2 ^ 32)) 64) 8 ≡ true
unfolding all_indices test_from ps psboxes
boxes_small = refl

ps-lt : (i x n : ℕ) → i < 8 → ps i (bit_and (shr x n) 0x3f) < 2 ^ 32
ps-lt i x n h =
    let j = bit_and (shr x n) 0x3f in
    let low : j < 64 = omega (arith, bit_and-low 6 (shr x n)) in
    ltb→lt _ _ (
      all_indices-passes (λ j. ltb (ps i j) (2 ^ 32)) 64
        (all_indices-passes (λ i. all_indices (λ j. ltb (ps i j) (2 ^ 32)) 64) 8 boxes_small i h) j
        low)

-- What a round masks the left word with.
abbrev mask : ℕ × ℕ → ℕ → ℕ
mask key r = substitute 0 (bit_xor (rol1 r) key.1) (bit_xor (ror4 (rol1 r)) key.0)

substitute-bit_xor : (l x1 x2 : ℕ) → substitute l x1 x2 ≡ bit_xor l (substitute 0 x1 x2)
unfolding substitute
substitute-bit_xor l x1 x2 = simp (bit_xor_assoc, zero-bit_xor) refl

substitute-lt : (l x1 x2 : ℕ) → l < 2 ^ 32 → substitute l x1 x2 < 2 ^ 32
unfolding substitute
substitute-lt l x1 x2 h =
    let and : (a b : ℕ) → a < 2 ^ 32 → b < 2 ^ 32 → bit_xor a b < 2 ^ 32 = bit_xor-lt 32 in
    and _ _
      (and _ _
        (and _ _
          (and _ _
            (and _ _
              (and _ _
                (and _ _ (and _ _ h (ps-lt 7 x1 0 (omega arith))) (ps-lt 5 x1 8 (omega arith)))
                (ps-lt 3 x1 16 (omega arith)))
              (ps-lt 1 x1 24 (omega arith)))
            (ps-lt 6 x2 0 (omega arith)))
          (ps-lt 4 x2 8 (omega arith)))
        (ps-lt 2 x2 16 (omega arith)))
      (ps-lt 0 x2 24 (omega arith))

crypt_round-swap : (key : ℕ × ℕ) (w : Words) → crypt_round key (swap (crypt_round key w)) ≡ swap w
unfolding crypt_round
crypt_round-swap key w = ap (words w.r) (
    substitute-bit_xor _ _ _
    ∙ (ap (λ l. bit_xor l (mask key w.r)) (substitute-bit_xor _ _ _)
        ∙ bit_xor_cancel w.l (mask key w.r)))

abbrev pub Fits : Words → Type 0
Fits w = (w.l < 2 ^ 32) × (w.r < 2 ^ 32)

pub crypt_round-Fits : (key : ℕ × ℕ) (w : Words) → Fits w → Fits (crypt_round key w)
unfolding crypt_round
crypt_round-Fits key w fits = (fits.1, substitute-lt w.l _ _ fits.0)

pub rounds_up-Fits :
    (keys : List (ℕ × ℕ)) (n i : ℕ) (w : Words) → Fits w → Fits (rounds_up keys n i w)
unfolding rounds_up
rounds_up-Fits keys zero i w fits = fits
rounds_up-Fits keys (suc n) i w fits =
    rounds_up-Fits keys n (i + 1) _ (crypt_round-Fits (key_at keys i) w fits)

pub rounds_down-Fits :
    (keys : List (ℕ × ℕ)) (n : ℕ) (w : Words) → Fits w → Fits (rounds_down keys n w)
unfolding rounds_down
rounds_down-Fits keys zero w fits = fits
rounds_down-Fits keys (suc n) w fits =
    rounds_down-Fits keys n _ (crypt_round-Fits (key_at keys n) w fits)

rounds_up-suc :
    (keys : List (ℕ × ℕ)) (n i : ℕ) (w : Words)
    → rounds_up keys (suc n) i w ≡ crypt_round (key_at keys (i + n)) (rounds_up keys n i w)
unfolding rounds_up
rounds_up-suc keys zero i w = ap (λ k. crypt_round (key_at keys k) w) (omega arith)
rounds_up-suc keys (suc n) i w =
    let w' = crypt_round (key_at keys i) w in
    rounds_up-suc keys n (i + 1) w'
    ∙ ap (λ k. crypt_round (key_at keys k) (rounds_up keys n (i + 1) w')) (omega arith)

rounds_up_last :
    (keys : List (ℕ × ℕ)) (n : ℕ) (w : Words)
    → rounds_up keys (suc n) 0 w ≡ crypt_round (key_at keys n) (rounds_up keys n 0 w)
rounds_up_last keys n w =
    rounds_up-suc keys n 0 w
    ∙ ap (λ k. crypt_round (key_at keys k) (rounds_up keys n 0 w)) (omega arith)

module _ (keys : List (ℕ × ℕ)) where
  pub rounds_down-rounds_up :
      (n : ℕ) (w : Words) → rounds_down keys n (swap (rounds_up keys n 0 w)) ≡ swap w
  unfolding rounds_down
  rounds_down-rounds_up zero w = unfold rounds_up in refl
  rounds_down-rounds_up (suc n) w =
      let key = key_at keys n in
      ap (λ v. rounds_down keys n (crypt_round key (swap v))) (rounds_up_last keys n w)
      ∙ (ap (rounds_down keys n) (crypt_round-swap key (rounds_up keys n 0 w))
          ∙ rounds_down-rounds_up n w)

  pub rounds_up-rounds_down :
      (n : ℕ) (w : Words) → rounds_up keys n 0 (swap (rounds_down keys n w)) ≡ swap w
  unfolding rounds_down
  rounds_up-rounds_down zero w = unfold rounds_up in refl
  rounds_up-rounds_down (suc n) w =
      let key = key_at keys n in
      let w' = crypt_round key w in
      rounds_up_last keys n (swap (rounds_down keys n w'))
      ∙ (ap (crypt_round key) (rounds_up-rounds_down n w') ∙ crypt_round-swap key w)
