-- ===== src/Des/Standard/Round.antt =====
-- A round of `des_crypt` (src/leo_des_crypto.c) is an iteration of FIPS 46-3.
use leo_net.Base.{
  ℕ, [], zero, suc, ◌+◌, ◌-◌, ◌*◌, ◌^◌, ◌≤◌, ◌<◌, ◌≡◌, ◌∙◌, refl, sym, ap, ap₂, true, bit_xor, ltb,
  ltb→lt, arith, all_indices, test_from, all_indices-passes,
}
use native.Mathlib.Nat.{pow-suc, mul-le-mul_right}
use leo_net.Base.Lists.{get_or, tabulate, get_or-tabulate}
use leo_net.Base.Bits.{bit_xor_assoc, bit_xor_comm, zero-bit_xor}
use leo_net.Des.{Words, ps, crypt_round, substitute, rol1, ror4}
use leo_net.Des.Boxes.{psboxes}
use leo_net.Des.Permute.{words}
use leo_net.Des.Standard.{
  bit, select_from, s_box, s_boxes, s_table, permutation, p_table, cipher_function, expansion,
  iteration, groups,
}
use leo_net.Des.Standard.Linear.{permutation-parts, permutation-zero, groups-lt, groups-bit_xor}
use leo_net.Des.Standard.Expansion.{groups-expansion}

-- Each entry is the permutation of an S-box's output at its place.
placed : ℕ → ℕ → ℕ
placed i j = permutation (s_box i j * 2 ^ (4 * (7 - i)))

psboxes-tabulate : psboxes ≡ tabulate 8 (λ i. tabulate 64 (placed i))
unfolding psboxes placed permutation select_from bit s_box s_table p_table
psboxes-tabulate = refl

ps-placed : (i j : ℕ) → i < 8 → j < 64 → ps i j ≡ placed i j
unfolding ps
ps-placed i j hi hj =
    ap (λ t. get_or (get_or t i []) j 0) psboxes-tabulate
    ∙ (ap (λ t. get_or t j 0) (get_or-tabulate 8 (λ i. tabulate 64 (placed i)) i [] hi)
        ∙ get_or-tabulate 64 (placed i) j 0 hj)

-- The box that comes before the last `left`.
ps-at :
    (left j : ℕ)
    → left < 8
    → j < 64
    → ps (7 - left) j ≡ permutation (s_box (7 - left) j * 2 ^ (4 * left))
unfolding placed
ps-at left j h hj =
    ps-placed (7 - left) j (omega arith) hj
    ∙ ap (λ n. permutation (s_box (7 - left) j * 2 ^ (4 * n))) (omega arith)

nibbles : all_indices (λ i. all_indices (λ j. ltb (s_box i j) (2 ^ 4)) 64) 8 ≡ true
unfolding all_indices test_from s_box s_table
nibbles = refl

s_box-lt : (i j : ℕ) → i < 8 → j < 64 → s_box i j < 2 ^ 4
s_box-lt i j hi hj = ltb→lt _ _ (
    all_indices-passes (λ j. ltb (s_box i j) (2 ^ 4)) 64
      (all_indices-passes (λ i. all_indices (λ j. ltb (s_box i j) (2 ^ 4)) 64) 8 nibbles i hi) j hj)

pub s_boxes_ext :
    (g h : ℕ → ℕ)
    → ((i : ℕ) → i < 8 → g i ≡ h i)
    → (left : ℕ) → left ≤ 8
    → s_boxes g left ≡ s_boxes h left
unfolding s_boxes
s_boxes_ext g h e zero n = refl
s_boxes_ext g h e (suc left) n =
    ap₂ (λ j rest. s_box (7 - left) j * 2 ^ (4 * left) + rest) (e (7 - left) (omega arith))
      (s_boxes_ext g h e left (omega arith))

nibble_more : (left : ℕ) → 2 ^ (4 * suc left) ≡ 2 ^ (4 * left) * 16
nibble_more left =
    let n = 4 * left in
    let places : 4 * suc left ≡ suc (suc (suc (suc n))) = omega arith in
    ap (λ k. 2 ^ k) places
    ∙ omega (
      arith,
      pow-suc 2 n,
      pow-suc 2 (suc n),
      pow-suc 2 (suc (suc n)),
      pow-suc 2 (suc (suc (suc n))),
    )

module _ (group : ℕ → ℕ) (six_bits : (i : ℕ) → group i < 64) where
  s_boxes-lt : (left : ℕ) → left ≤ 8 → s_boxes group left < 2 ^ (4 * left)
  unfolding s_boxes
  s_boxes-lt zero h = omega arith
  s_boxes-lt (suc left) h =
      let nibble : s_box (7 - left) (group (7 - left)) < 16 =
        s_box-lt (7 - left) (group (7 - left)) (omega arith) (six_bits (7 - left)) in
      omega (
        arith,
        nibble_more left,
        mul-le-mul_right {m = s_box (7 - left) (group (7 - left))} {n = 15} (2 ^ (4 * left))
            (omega arith),
        s_boxes-lt left (omega arith),
      )

  -- The exclusive or of the last `left` entries.
  masked : ℕ → ℕ
  masked zero = 0
  masked (suc left) = bit_xor (ps (7 - left) (group (7 - left))) (masked left)

  permutation-s_boxes : (left : ℕ) → left ≤ 8 → permutation (s_boxes group left) ≡ masked left
  unfolding s_boxes masked
  permutation-s_boxes zero h = permutation-zero
  permutation-s_boxes (suc left) h =
      permutation-parts (4 * left) (s_box (7 - left) (group (7 - left))) (s_boxes group left)
        (s_boxes-lt left (omega arith))
      ∙ ap₂ bit_xor (sym (ps-at left (group (7 - left)) (omega arith) (six_bits (7 - left))))
          (permutation-s_boxes left (omega arith))

left_comm : (a b c : ℕ) → bit_xor a (bit_xor b c) ≡ bit_xor b (bit_xor a c)
left_comm a b c = cc (bit_xor_assoc a b c, bit_xor_assoc b a c, bit_xor_comm a b)

-- The order of the source, and the order of the boxes.
box_order :
    (l a b c d e f g h : ℕ)
    → bit_xor
        (bit_xor (bit_xor (bit_xor (bit_xor (bit_xor (bit_xor (bit_xor l h) f) d) b) g) e) c)
        a
      ≡ bit_xor l (
          bit_xor a
            (bit_xor b (bit_xor c (bit_xor d (bit_xor e (bit_xor f (bit_xor g (bit_xor h 0))))))))
box_order l a b c d e f g h = simp (bit_xor_assoc, bit_xor_comm, left_comm, zero-bit_xor) refl

substitute-masked :
    (l x1 x2 : ℕ) → substitute l x1 x2 ≡ bit_xor l (masked (groups (x2, x1)) (groups-lt (x2, x1)) 8)
unfolding substitute masked groups
substitute-masked l x1 x2 = box_order l _ _ _ _ _ _ _ _

-- The words that a round looks its entries up by, as groups.
round_groups :
    (key : ℕ × ℕ) (r : ℕ)
    → r < 2 ^ 32
    → (i : ℕ) → i < 8
    → groups (bit_xor (ror4 (rol1 r)) key.0, bit_xor (rol1 r) key.1) i
      ≡ bit_xor (expansion i r) (groups key i)
round_groups key r h i n =
    groups-bit_xor (ror4 (rol1 r), rol1 r) key i
    ∙ ap (λ e. bit_xor e (groups key i)) (groups-expansion r h i n)

-- For a right word of 32 bits, a round with two key words is the iteration with their groups: the
-- left word is the old right one, and the right one the exclusive or of the old left one and
-- `f(R, K)`.
pub crypt_round-iteration :
    (key : ℕ × ℕ) (w : Words) → w.r < 2 ^ 32 → crypt_round key w ≡ iteration (groups key) w
unfolding crypt_round iteration cipher_function
crypt_round-iteration key w h = ap (words w.r) (
    let x2 = bit_xor (ror4 (rol1 w.r)) key.0 in
    let x1 = bit_xor (rol1 w.r) key.1 in
    substitute-masked w.l x1 x2
    ∙ ap (bit_xor w.l) (
        sym (permutation-s_boxes (groups (x2, x1)) (groups-lt (x2, x1)) 8 (omega arith))
        ∙ ap permutation (
            s_boxes_ext (groups (x2, x1)) (λ i. bit_xor (expansion i w.r) (groups key i))
              (round_groups key w.r h) 8 (omega arith))))
