-- ===== src/Des/Permute.antt =====
-- The initial and the final transposition of DES (src/leo_des_crypto.c) undo each other, up to the
-- exchange of the two words.
use leo_net.Base.{
  ℕ, zero, suc, ◌+◌, ◌-◌, ◌*◌, ◌/◌, ◌%◌, ◌^◌, ◌<◌, ◌≡◌, ◌∙◌, refl, ap, ap₂, shr, u8, List, [], ◌∷◌,
  arith,
}
use leo_net.Base.Lists.{get_or, tabulate, get_or-tabulate}
use leo_net.Base.Bits.{bit_and-low}
use leo_net.Base.Endian.{IsBytes, word4}
use leo_net.Des.Transposes.{ip_l, ip_r, ip_inv_l, ip_inv_r}
use leo_net.Des.{Words, initial_transpose, final_transpose, final_word, put_word, byte, transpose}
use leo_net.Des.Octets.{
  digit, IsDigits, octet, octet-lt, digit-octet, octet-digit, octet_ext, below_8, transpose-octets,
}

-- A word with the top digits of its bytes set.
abbrev tops : (ℕ → ℕ → ℕ) → ℕ → ℕ
tops f s = word4 (128 * f 0 s) (128 * f 1 s) (128 * f 2 s) (128 * f 3 s)

-- Which digit of the index goes to the top of byte `k`.
abbrev even : ℕ → ℕ → ℕ
even k s = digit s (2 * k)

abbrev odd : ℕ → ℕ → ℕ
odd k s = digit s (2 * k + 1)

abbrev low : ℕ → ℕ → ℕ
low k s = digit s (3 - k)

abbrev high : ℕ → ℕ → ℕ
high k s = digit s (7 - k)

ip_l-tops : ip_l ≡ tabulate 256 (tops even)
unfolding ip_l
ip_l-tops = refl

ip_r-tops : ip_r ≡ tabulate 256 (tops odd)
unfolding ip_r
ip_r-tops = refl

ip_inv_l-tops : ip_inv_l ≡ tabulate 256 (tops low)
unfolding ip_inv_l
ip_inv_l-tops = refl

ip_inv_r-tops : ip_inv_r ≡ tabulate 256 (tops high)
unfolding ip_inv_r
ip_inv_r-tops = refl

-- Entry by entry.
spread :
    (t : List ℕ) (f : ℕ → ℕ → ℕ)
    → t ≡ tabulate 256 (tops f)
    → (s : ℕ) → s < 2 ^ 8
    → get_or t s 0 ≡ tops f s
spread t f e s h = rw e (get_or-tabulate 256 (tops f) s 0 h)

abbrev pub words : ℕ → ℕ → Words
words l r = record { l = l; r = r }

-- The digits `i` of the bytes of a block, as one byte, and the eight bytes that gives.
abbrev pub column : List ℕ → ℕ → ℕ
column bytes i = octet (λ j. digit (get_or bytes j 0) i)

unfoldable pub columns : List ℕ → List ℕ
columns bytes =
    column bytes 0
    ∷ column bytes 1
    ∷ column bytes 2
    ∷ column bytes 3
    ∷ column bytes 4
    ∷ column bytes 5
    ∷ column bytes 6
    ∷ column bytes 7
    ∷ []

digit-IsDigits : (f : ℕ → ℕ) (i : ℕ) → IsDigits (λ j. digit (f j) i)
digit-IsDigits f i j = omega arith

pub column-lt : (bytes : List ℕ) (i : ℕ) → column bytes i < 2 ^ 8
column-lt bytes i =
    octet-lt (λ j. digit (get_or bytes j 0) i) (digit-IsDigits (λ j. get_or bytes j 0) i)

pub get_or-columns : (bytes : List ℕ) (j : ℕ) → j < 8 → get_or (columns bytes) j 0 ≡ column bytes j
unfolding columns
get_or-columns bytes =
    below_8 (λ j. get_or (columns bytes) j 0 ≡ column bytes j) refl refl refl refl refl refl refl
      refl

pub columns-IsBytes : (bytes : List ℕ) → IsBytes (columns bytes)
unfolding columns
columns-IsBytes bytes zero = column-lt bytes 0
columns-IsBytes bytes (suc zero) = column-lt bytes 1
columns-IsBytes bytes (suc (suc zero)) = column-lt bytes 2
columns-IsBytes bytes (suc (suc (suc zero))) = column-lt bytes 3
columns-IsBytes bytes (suc (suc (suc (suc zero)))) = column-lt bytes 4
columns-IsBytes bytes (suc (suc (suc (suc (suc zero))))) = column-lt bytes 5
columns-IsBytes bytes (suc (suc (suc (suc (suc (suc zero)))))) = column-lt bytes 6
columns-IsBytes bytes (suc (suc (suc (suc (suc (suc (suc zero))))))) = column-lt bytes 7
columns-IsBytes bytes (suc (suc (suc (suc (suc (suc (suc (suc j)))))))) = omega arith

-- Taking the columns twice gives the bytes back.
pub column-columns :
    (bytes : List ℕ) → IsBytes bytes → (i : ℕ) → i < 8 → column (columns bytes) i ≡ get_or bytes i 0
column-columns bytes small i h =
    octet_ext (λ j. digit (get_or (columns bytes) j 0) i) (digit (get_or bytes i 0))
      (λ j l.
        ap (λ x. digit x i) (get_or-columns bytes j l)
        ∙ digit-octet (λ k. digit (get_or bytes k 0) j) (digit-IsDigits (λ k. get_or bytes k 0) j) i
            h)
    ∙ octet-digit (get_or bytes i 0) (small i)

-- `transpose` with one of the four tables.
module _ (t : List ℕ) (i : ℕ → ℕ) (e : t ≡ tabulate 256 (tops (λ k s. digit s (i k))))
    (bytes : List ℕ) (small : IsBytes bytes) where
  transpose-columns :
      transpose t
        (get_or bytes 0 0)
        (get_or bytes 1 0)
        (get_or bytes 2 0)
        (get_or bytes 3 0)
        (get_or bytes 4 0)
        (get_or bytes 5 0)
        (get_or bytes 6 0)
        (get_or bytes 7 0)
      ≡ word4 (column bytes (i 0)) (column bytes (i 1)) (column bytes (i 2)) (column bytes (i 3))
  transpose-columns =
      transpose-octets t (λ k s. digit s (i k)) (λ k j. omega arith)
        (spread t (λ k s. digit s (i k)) e) (λ j. get_or bytes j 0) small

pub initial_transpose-columns :
    (s : List ℕ)
    → IsBytes s
    → initial_transpose s
      ≡ words
          (word4 (column s 0) (column s 2) (column s 4) (column s 6))
          (word4 (column s 1) (column s 3) (column s 5) (column s 7))
unfolding initial_transpose
initial_transpose-columns s small =
    ap₂ words (transpose-columns ip_l (λ k. 2 * k) ip_l-tops s small)
      (transpose-columns ip_r (λ k. 2 * k + 1) ip_r-tops s small)

-- The bytes of the two words in the order in which `final_transpose` takes them.
abbrev pub in_turn : Words → List ℕ
in_turn w =
    w.r / 2 ^ 0 % 2 ^ 8
    ∷ w.l / 2 ^ 0 % 2 ^ 8
    ∷ w.r / 2 ^ 8 % 2 ^ 8
    ∷ w.l / 2 ^ 8 % 2 ^ 8
    ∷ w.r / 2 ^ 16 % 2 ^ 8
    ∷ w.l / 2 ^ 16 % 2 ^ 8
    ∷ w.r / 2 ^ 24 % 2 ^ 8
    ∷ w.l / 2 ^ 24 % 2 ^ 8
    ∷ []

pub in_turn-IsBytes : (w : Words) → IsBytes (in_turn w)
in_turn-IsBytes w zero = omega arith
in_turn-IsBytes w (suc zero) = omega arith
in_turn-IsBytes w (suc (suc zero)) = omega arith
in_turn-IsBytes w (suc (suc (suc zero))) = omega arith
in_turn-IsBytes w (suc (suc (suc (suc zero)))) = omega arith
in_turn-IsBytes w (suc (suc (suc (suc (suc zero))))) = omega arith
in_turn-IsBytes w (suc (suc (suc (suc (suc (suc zero)))))) = omega arith
in_turn-IsBytes w (suc (suc (suc (suc (suc (suc (suc zero))))))) = omega arith
in_turn-IsBytes w (suc (suc (suc (suc (suc (suc (suc (suc j)))))))) = omega arith

byte-eq : (x n : ℕ) → byte x n ≡ x / 2 ^ n % 2 ^ 8
unfolding byte
byte-eq x n = bit_and-low 8 (shr x n)

final_word-in_turn :
    (t : List ℕ) (w : Words)
    → let b = in_turn w in
      final_word t w
      ≡ transpose t
          (get_or b 0 0)
          (get_or b 1 0)
          (get_or b 2 0)
          (get_or b 3 0)
          (get_or b 4 0)
          (get_or b 5 0)
          (get_or b 6 0)
          (get_or b 7 0)
unfolding final_word
final_word-in_turn t w =
    rw
      (
        byte-eq w.r 0,
        byte-eq w.l 0,
        byte-eq w.r 8,
        byte-eq w.l 8,
        byte-eq w.r 16,
        byte-eq w.l 16,
        byte-eq w.r 24,
        byte-eq w.l 24,
      )
      refl

put_word-word4 :
    (a b c d : ℕ) (rest : List ℕ)
    → a < 2 ^ 8
    → b < 2 ^ 8
    → c < 2 ^ 8
    → d < 2 ^ 8
    → put_word (word4 a b c d) rest ≡ d ∷ c ∷ b ∷ a ∷ rest
unfolding put_word
put_word-word4 a b c d rest ha hb hc hd =
    let x = word4 a b c d in
    let e₀ : u8 x ≡ a = omega arith in
    let e₁ : u8 (shr x 8) ≡ b = omega arith in
    let e₂ : u8 (shr x 16) ≡ c = omega arith in
    let e₃ : u8 (shr x 24) ≡ d = omega arith in
    ap₂ ◌∷◌ e₃ (ap₂ ◌∷◌ e₂ (ap₂ ◌∷◌ e₁ (ap (λ y. y ∷ rest) e₀)))

pub final_transpose-columns : (w : Words) → final_transpose w ≡ columns (in_turn w)
unfolding final_transpose columns
final_transpose-columns w =
    let b = in_turn w in
    let small = in_turn-IsBytes w in
    let lt : (i : ℕ) → column b i < 2 ^ 8 = column-lt b in
    let l2 =
      final_word-in_turn ip_inv_l w
      ∙ transpose-columns ip_inv_l (λ k. 3 - k) ip_inv_l-tops b small in
    let r2 =
      final_word-in_turn ip_inv_r w
      ∙ transpose-columns ip_inv_r (λ k. 7 - k) ip_inv_r-tops b small in
    ap₂ (λ x y. put_word x (put_word y [])) l2 r2
    ∙ (ap (put_word (word4 (column b 3) (column b 2) (column b 1) (column b 0))) (
          put_word-word4 (column b 7) (column b 6) (column b 5) (column b 4) [] (lt 7) (lt 6) (lt 5)
            (lt 4))
        ∙ put_word-word4 (column b 3) (column b 2) (column b 1) (column b 0) _ (lt 3) (lt 2) (lt 1)
            (lt 0))
