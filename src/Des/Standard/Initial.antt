-- ===== src/Des/Standard/Initial.antt =====
-- The initial transposition of `des_crypt` (src/leo_des_crypto.c) is the permutation IP of FIPS 46-3.
use leo_net.Base.{ℕ, ◌+◌, ◌-◌, ◌*◌, ◌^◌, ◌<◌, ◌≡◌, ◌∙◌, sym, ap₂, List, [], ◌∷◌, arith}
use leo_net.Base.Lists.{get_or}
use leo_net.Base.Endian.{IsBytes, word4}
use leo_net.Des.{initial_transpose}
use leo_net.Des.Octets.{octet, digit, below_8}
use leo_net.Des.Permute.{column, words, initial_transpose-columns}
use leo_net.Des.Standard.{
  bit, block_bit, select_row, select_rows, ip_left, ip_right, initial_permutation,
}

-- Eight digits put below `acc`, the last one first.
horner :
    (acc : ℕ) (c : ℕ → ℕ)
    → (((((((acc * 2 + c 7) * 2 + c 6) * 2 + c 5) * 2 + c 4) * 2 + c 3) * 2 + c 2) * 2 + c 1) * 2
        + c 0
      ≡ acc * 2 ^ 8 + octet c
unfolding octet
horner acc c = omega arith

-- The row of IP that collects the digits `i`.
unfoldable pub row_of : ℕ → List ℕ
row_of i = (64 - i) ∷ (56 - i) ∷ (48 - i) ∷ (40 - i) ∷ (32 - i) ∷ (24 - i) ∷ (16 - i) ∷ (8 - i) ∷ []

module _ (s : List ℕ) where
  abbrev digits_at : ℕ → ℕ → ℕ
  digits_at i j = digit (get_or s j 0) i

  pub row-column : (acc i : ℕ) → i < 8 → select_row s acc (row_of i) ≡ acc * 2 ^ 8 + column s i
  unfolding select_row block_bit bit row_of
  row-column acc =
      below_8 (λ i. select_row s acc (row_of i) ≡ acc * 2 ^ 8 + column s i)
        (horner acc (digits_at 0)) (horner acc (digits_at 1)) (horner acc (digits_at 2))
        (horner acc (digits_at 3)) (horner acc (digits_at 4)) (horner acc (digits_at 5))
        (horner acc (digits_at 6)) (horner acc (digits_at 7))

  -- Four rows are a word.
  rows_word4 :
      (i j k l : ℕ)
      → i < 8
      → j < 8
      → k < 8
      → l < 8
      → select_rows s 0 (row_of l ∷ row_of k ∷ row_of j ∷ row_of i ∷ [])
        ≡ word4 (column s i) (column s j) (column s k) (column s l)
  unfolding select_rows
  rows_word4 i j k l hi hj hk hl =
      rw
        (
          row-column 0 l hl,
          row-column (0 * 2 ^ 8 + column s l) k hk,
          row-column ((0 * 2 ^ 8 + column s l) * 2 ^ 8 + column s k) j hj,
          row-column (((0 * 2 ^ 8 + column s l) * 2 ^ 8 + column s k) * 2 ^ 8 + column s j) i hi,
        )
        (omega arith)

-- On bytes.
pub initial_transpose-initial_permutation :
    (s : List ℕ) → IsBytes s → initial_transpose s ≡ initial_permutation s
unfolding initial_permutation ip_left ip_right row_of
initial_transpose-initial_permutation s small =
    initial_transpose-columns s small
    ∙ sym (
        ap₂ words (rows_word4 s 0 2 4 6 (omega arith) (omega arith) (omega arith) (omega arith))
          (rows_word4 s 1 3 5 7 (omega arith) (omega arith) (omega arith) (omega arith)))
