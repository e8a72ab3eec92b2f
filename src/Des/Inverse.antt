-- ===== src/Des/Inverse.antt =====
-- The final transposition of DES (src/leo_des_crypto.c) undoes the initial one after the two words
-- are exchanged, and the other way round.
use leo_net.Base.{ℕ, ◌^◌, ◌<◌, ◌≡◌, ◌∙◌, refl, sym, ap, ap₂, List, [], ◌∷◌, arith}
use leo_net.Base.Lists.{get_or, length, get_or_ext}
use leo_net.Base.Endian.{IsBytes, word4}
use leo_net.Des.{Words, initial_transpose, final_transpose}
use leo_net.Des.Permute.{
  words, column, columns, in_turn, get_or-columns, column-columns, initial_transpose-columns,
  final_transpose-columns, columns-IsBytes, column-lt, in_turn-IsBytes,
}

abbrev pub swap : Words → Words
swap w = words w.r w.l

-- A block of eight bytes.
pub record IsBlock (s : List ℕ) : Type 0 where
  pub eight : length s ≡ 8
  pub bytes : IsBytes s

pub length-columns : (s : List ℕ) → length (columns s) ≡ 8
unfolding columns
length-columns s = refl

columns-columns : (s : List ℕ) → IsBlock s → columns (columns s) ≡ s
columns-columns s block =
    get_or_ext 0 (columns (columns s)) s (length-columns (columns s) ∙ sym block.eight) λ i h.
      let low : i < 8 = omega (arith, length-columns (columns s)) in
      get_or-columns (columns s) i low ∙ column-columns s block.bytes i low

in_turn-word4 :
    (a b c d a' b' c' d' : ℕ)
    → a < 2 ^ 8
    → b < 2 ^ 8
    → c < 2 ^ 8
    → d < 2 ^ 8
    → a' < 2 ^ 8
    → b' < 2 ^ 8
    → c' < 2 ^ 8
    → d' < 2 ^ 8
    → in_turn (words (word4 a b c d) (word4 a' b' c' d')) ≡ a' ∷ a ∷ b' ∷ b ∷ c' ∷ c ∷ d' ∷ d ∷ []
in_turn-word4 a b c d a' b' c' d' ha hb hc hd ha' hb' hc' hd' = ap₂ ◌∷◌ (omega arith) (
    ap₂ ◌∷◌ (omega arith) (
      ap₂ ◌∷◌ (omega arith) (
        ap₂ ◌∷◌ (omega arith) (
          ap₂ ◌∷◌ (omega arith)
            (ap₂ ◌∷◌ (omega arith) (ap₂ ◌∷◌ (omega arith) (ap (λ x. x ∷ []) (omega arith))))))))

-- A block comes back.
pub final_transpose-initial_transpose :
    (s : List ℕ) → IsBlock s → final_transpose (swap (initial_transpose s)) ≡ s
unfolding columns
final_transpose-initial_transpose s block =
    let lt : (i : ℕ) → column s i < 2 ^ 8 = column-lt s in
    ap (λ w. final_transpose (swap w)) (initial_transpose-columns s block.bytes)
    ∙ (final_transpose-columns _
        ∙ (ap columns (
              in_turn-word4 (column s 1) (column s 3) (column s 5) (column s 7) (column s 0)
                (column s 2) (column s 4) (column s 6) (lt 1) (lt 3) (lt 5) (lt 7) (lt 0) (lt 2)
                (lt 4) (lt 6))
            ∙ columns-columns s block))

-- Two words of 32 bits come back.
pub initial_transpose-final_transpose :
    (w : Words) → w.l < 2 ^ 32 → w.r < 2 ^ 32 → initial_transpose (final_transpose w) ≡ swap w
initial_transpose-final_transpose w hl hr =
    let b = in_turn w in
    let back : (i : ℕ) → i < 8 → column (columns b) i ≡ get_or b i 0 =
      column-columns b (in_turn-IsBytes w) in
    ap initial_transpose (final_transpose-columns w)
    ∙ (initial_transpose-columns (columns b) (columns-IsBytes b)
        ∙ ap₂ words
            (rw
              (
                back 0 (omega arith),
                back 2 (omega arith),
                back 4 (omega arith),
                back 6 (omega arith),
              )
              (omega arith))
            (rw
              (
                back 1 (omega arith),
                back 3 (omega arith),
                back 5 (omega arith),
                back 7 (omega arith),
              )
              (omega arith)))
