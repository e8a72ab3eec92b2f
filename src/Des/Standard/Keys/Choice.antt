-- ===== src/Des/Standard/Keys/Choice.antt =====
-- The choice of bits with which `des_setkey` (src/leo_des_crypto.c) starts is PC-1 of FIPS 46-3.
use leo_net.Base.{
  ℕ, zero, suc, ◌+◌, ◌-◌, ◌*◌, ◌^◌, ◌≤◌, ◌<◌, ◌≡◌, ◌∙◌, refl, sym, ap, ap₂, Bool, true, min, List,
  [], ◌∷◌, arith, ltb, ◌==◌, ◌&&◌, if◌then◌else◌, all_indices, test_from, all_indices-passes,
}
use leo_net.Base.Lists.{get_or, length, tabulate, get_or_ext, get_or-tabulate}
use leo_net.Des.Standard.{bit, block_bit, select_row, select_rows}
use leo_net.Des.Standard.Initial.{row_of, row-column}
use leo_net.Des.Standard.Keys.{pc1_left, pc1_right, permuted_choice_1}
use leo_net.Base.Endian.{IsBytes}
use leo_net.Des.Octets.{digit, octet}
use leo_net.Des.Schedule.{Halves, choose, choose_bits, pc1}
use leo_net.Des.Standard.Keys.Or.{halves, joined, choose_bits-joined}
use leo_net.Des.Standard.Keys.Lanes.{
  part, lanes, part_after-or, part_before-or, part-small, after-small, before-small, lanes-part,
}
use leo_net.Des.Standard.Keys.Schedule.{Small}

-- What the byte `k` puts into the halves: each digit in its lane, the fourth in one of the halves.
contribution : ℕ → (ℕ → ℕ) → Halves
contribution k f =
    halves
      (lanes (2 ^ k * f 7) (2 ^ k * f 6) (2 ^ k * f 5) (if ltb k 4 then 0 else 2 ^ (k - 4) * f 4))
      (lanes (2 ^ k * f 1) (2 ^ k * f 2) (2 ^ k * f 3) (if ltb k 4 then 2 ^ k * f 4 else 0))

contributes : ℕ → ℕ → Bool
contributes k b =
    let h = choose_bits 7 (7 * k) b (halves 0 0) in
    let g = contribution k (digit b) in (h.c == g.c) && (h.d == g.d)

contributions : all_indices (λ k. all_indices (λ b. contributes k b) 256) 8 ≡ true
unfolding all_indices test_from contributes contribution lanes choose_bits pc1
contributions = refl

choose_bits-contribution :
    (k b : ℕ) → k < 8 → b < 256 → choose_bits 7 (7 * k) b (halves 0 0) ≡ contribution k (digit b)
choose_bits-contribution k b hk hb =
    let checked : contributes k b ≡ true =
      all_indices-passes (λ b. contributes k b) 256
        (all_indices-passes (λ k. all_indices (λ b. contributes k b) 256) 8 contributions k hk) b
        hb in
    unfold contributes in ap₂ halves (ground (arith, checked)) (ground (arith, checked))

module _ (x : ℕ → ℕ) (small : (j : ℕ) → x j < 256) where
  abbrev at : ℕ → ℕ → ℕ
  at i j = digit (x j) i

  -- The halves after `k` bytes.
  chain : ℕ → Halves
  chain zero = halves 0 0
  chain (suc k) = choose_bits 7 (7 * k) (x k) (chain k)

  filled : ℕ → Halves
  filled k =
      halves
        (lanes (part k (at 7)) (part k (at 6)) (part k (at 5)) (part (k - 4) (λ j. at 4 (j + 4))))
        (lanes (part k (at 1)) (part k (at 2)) (part k (at 3)) (part (min k 4) (at 4)))

  filled-contribution :
      (k : ℕ) → k < 8 → joined (filled k) (contribution k (digit (x k))) ≡ filled (suc k)
  unfolding joined filled contribution
  filled-contribution k h =
      let d : (i j : ℕ) → at i j < 2 = λ i j. omega arith in
      ap₂ halves
        (lanes-part k (part (k - 4) (λ j. at 4 (j + 4)))
            (if ltb k 4 then 0 else 2 ^ (k - 4) * at 4 k) (at 7) (at 6) (at 5) (d 7) (d 6) (d 5) h
            (part-small 4 (k - 4) (λ j. at 4 (j + 4)) (λ j. d 4 (j + 4)) (omega arith))
            (after-small k (at 4) (d 4) h)
          ∙ ap (lanes (part (suc k) (at 7)) (part (suc k) (at 6)) (part (suc k) (at 5)))
              (part_after-or k (at 4) (d 4) h))
        (lanes-part k (part (min k 4) (at 4)) (if ltb k 4 then 2 ^ k * at 4 k else 0) (at 1) (at 2)
            (at 3) (d 1) (d 2) (d 3) h (part-small 4 (min k 4) (at 4) (d 4) (omega arith))
            (before-small k (at 4) (d 4) h)
          ∙ ap (lanes (part (suc k) (at 1)) (part (suc k) (at 2)) (part (suc k) (at 3)))
              (part_before-or k (at 4) (d 4) h))

  chain-filled : (k : ℕ) → k ≤ 8 → chain k ≡ filled k
  unfolding chain
  chain-filled zero h = unfold filled lanes part in refl
  chain-filled (suc k) h =
      choose_bits-joined 7 (7 * k) (x k) (chain k)
      ∙ (ap₂ joined (chain-filled k (omega arith))
            (choose_bits-contribution k (x k) (omega arith) (small k))
          ∙ filled-contribution k (omega arith))

octet-part : (f : ℕ → ℕ) → octet f ≡ part 8 f
unfolding octet part
octet-part f = omega arith

module _ (s : List ℕ) where
  abbrev bits : ℕ → ℕ → ℕ
  bits i j = digit (get_or s j 0) i

  -- Three rows of eight and one of four.
  rows-lanes :
      (i j k : ℕ) (last : List ℕ) (f : ℕ → ℕ)
      → i < 8
      → j < 8
      → k < 8
      → ((acc : ℕ) → select_row s acc last ≡ acc * 2 ^ 4 + part 4 f)
      → select_row s
          (select_row s (select_row s (select_row s 0 (row_of i)) (row_of j)) (row_of k))
          last
        ≡ lanes (part 8 (bits i)) (part 8 (bits j)) (part 8 (bits k)) (part 4 f)
  unfolding lanes
  rows-lanes i j k last f hi hj hk e = omega (
    arith,
    e (select_row s (select_row s (select_row s 0 (row_of i)) (row_of j)) (row_of k)),
    row-column s (select_row s (select_row s 0 (row_of i)) (row_of j)) k hk,
    row-column s (select_row s 0 (row_of i)) j hj,
    row-column s 0 i hi,
    octet-part (bits i),
    octet-part (bits j),
    octet-part (bits k),
  )

  last_left :
      (acc : ℕ)
      → select_row s acc (60 ∷ 52 ∷ 44 ∷ 36 ∷ []) ≡ acc * 2 ^ 4 + part 4 (λ j. bits 4 (j + 4))
  unfolding select_row block_bit bit part
  last_left acc = omega arith

  last_right : (acc : ℕ) → select_row s acc (28 ∷ 20 ∷ 12 ∷ 4 ∷ []) ≡ acc * 2 ^ 4 + part 4 (bits 4)
  unfolding select_row block_bit bit part
  last_right acc = omega arith

  left_rows :
      select_rows s 0 pc1_left
      ≡ lanes (part 8 (bits 7)) (part 8 (bits 6)) (part 8 (bits 5)) (part 4 (λ j. bits 4 (j + 4)))
  unfolding select_rows select_row pc1_left row_of
  left_rows =
      rows-lanes 7 6 5 (60 ∷ 52 ∷ 44 ∷ 36 ∷ []) (λ j. bits 4 (j + 4)) (omega arith) (omega arith)
        (omega arith) last_left

  right_rows :
      select_rows s 0 pc1_right
      ≡ lanes (part 8 (bits 1)) (part 8 (bits 2)) (part 8 (bits 3)) (part 4 (bits 4))
  unfolding select_rows select_row pc1_right row_of
  right_rows =
      rows-lanes 1 2 3 (28 ∷ 20 ∷ 12 ∷ 4 ∷ []) (bits 4) (omega arith) (omega arith) (omega arith)
        last_right

-- On eight bytes.
pub choose-permuted_choice_1 :
    (s : List ℕ)
    → length s ≡ 8
    → IsBytes s
    → choose 0 s (record { c = 0; d = 0 }) ≡ permuted_choice_1 s
unfolding permuted_choice_1
choose-permuted_choice_1 s eight small =
    let x : ℕ → ℕ = λ j. get_or s j 0 in
    let cells : s ≡ tabulate 8 x =
      get_or_ext 0 s (tabulate 8 x) eight (λ i h. sym (get_or-tabulate 8 x i 0 (omega arith))) in
    let run : choose 0 (tabulate 8 x) (halves 0 0) ≡ filled x small 8 =
      unfold choose chain in chain-filled x small 8 (omega arith) in
    let rows : filled x small 8 ≡ halves (select_rows s 0 pc1_left) (select_rows s 0 pc1_right) =
      unfold filled in ap₂ halves (sym (left_rows s)) (sym (right_rows s)) in
    ap (λ t. choose 0 t (halves 0 0)) cells ∙ (run ∙ rows)

lanes-lt : (a b c n : ℕ) → a < 2 ^ 8 → b < 2 ^ 8 → c < 2 ^ 8 → n < 2 ^ 4 → lanes a b c n < 2 ^ 28
unfolding lanes
lanes-lt a b c n ha hb hc hn = omega arith

pub permuted_choice_1-Small : (s : List ℕ) → Small (permuted_choice_1 s)
unfolding permuted_choice_1
permuted_choice_1-Small s =
    let byte : (i : ℕ) → part 8 (bits s i) < 2 ^ 8 =
      λ i. part-small 8 8 (bits s i) (λ j. omega arith) (omega arith) in
    (
      omega (
        arith,
        left_rows s,
        lanes-lt _ _ _ _ (byte 7) (byte 6) (byte 5)
            (part-small 4 4 (λ j. bits s 4 (j + 4)) (λ j. omega arith) (omega arith)),
      ),
      omega (
        arith,
        right_rows s,
        lanes-lt _ _ _ _ (byte 1) (byte 2) (byte 3)
            (part-small 4 4 (bits s 4) (λ j. omega arith) (omega arith)),
      ),
    )
