-- ===== src/Des/Octets.antt =====
-- Bytes as eight digits, and what `transpose` of DES (src/leo_des_crypto.c) does to them: with a
-- table that spreads four digits of its index over the tops of four bytes, each byte of the result
-- collects one of these digits from the eight indices.
use leo_net.Base.{ℕ, zero, suc, ◌+◌, ◌*◌, ◌/◌, ◌%◌, ◌^◌, ◌<◌, ◌≡◌, ◌∙◌, refl, bit_or, List, arith}
use Prim.Native.Nat.{bit_or-bitwise}
use leo_net.Base.Lists.{get_or}
use leo_net.Base.Bits.{bit_or_fields, bit_or_none}
use leo_net.Base.Endian.{word4}
use leo_net.Des.{shift_in, transpose}

abbrev pub digit : ℕ → ℕ → ℕ
digit x j = x / 2 ^ j % 2

abbrev pub IsDigits : (ℕ → ℕ) → Type 0
IsDigits c = (j : ℕ) → c j < 2

-- The byte with the given digits, the lowest one first.
unfoldable pub octet : (ℕ → ℕ) → ℕ
octet c = c 0 + 2 * c 1 + 4 * c 2 + 8 * c 3 + 16 * c 4 + 32 * c 5 + 64 * c 6 + 128 * c 7

pub octet-lt : (c : ℕ → ℕ) → IsDigits c → octet c < 2 ^ 8
unfolding octet
octet-lt c d = omega (arith, d 0, d 1, d 2, d 3, d 4, d 5, d 6, d 7)

-- The eight indices one by one.
pub below_8 {ℓ} :
    (P : ℕ → Type ℓ) → P 0 → P 1 → P 2 → P 3 → P 4 → P 5 → P 6 → P 7 → (j : ℕ) → j < 8 → P j
below_8 P a b c d e f g h zero l = a
below_8 P a b c d e f g h (suc zero) l = b
below_8 P a b c d e f g h (suc (suc zero)) l = c
below_8 P a b c d e f g h (suc (suc (suc zero))) l = d
below_8 P a b c d e f g h (suc (suc (suc (suc zero)))) l = e
below_8 P a b c d e f g h (suc (suc (suc (suc (suc zero))))) l = f
below_8 P a b c d e f g h (suc (suc (suc (suc (suc (suc zero)))))) l = g
below_8 P a b c d e f g h (suc (suc (suc (suc (suc (suc (suc zero))))))) l = h
below_8 P a b c d e f g h (suc (suc (suc (suc (suc (suc (suc (suc j)))))))) l = absurd (omega arith)

pub digit-octet : (c : ℕ → ℕ) → IsDigits c → (j : ℕ) → j < 8 → digit (octet c) j ≡ c j
unfolding octet
digit-octet c d =
    below_8 (λ j. digit (octet c) j ≡ c j) (omega (arith, d 0)) (omega (arith, d 0, d 1))
      (omega (arith, d 0, d 1, d 2)) (omega (arith, d 0, d 1, d 2, d 3))
      (omega (arith, d 0, d 1, d 2, d 3, d 4)) (omega (arith, d 0, d 1, d 2, d 3, d 4, d 5))
      (omega (arith, d 0, d 1, d 2, d 3, d 4, d 5, d 6))
      (omega (arith, d 0, d 1, d 2, d 3, d 4, d 5, d 6, d 7))

pub octet-digit : (x : ℕ) → x < 2 ^ 8 → octet (digit x) ≡ x
unfolding octet
octet-digit x h = omega arith

pub octet_ext : (c e : ℕ → ℕ) → ((j : ℕ) → j < 8 → c j ≡ e j) → octet c ≡ octet e
unfolding octet
octet_ext c e h = omega (
  arith,
  h 0 (omega arith),
  h 1 (omega arith),
  h 2 (omega arith),
  h 3 (omega arith),
  h 4 (omega arith),
  h 5 (omega arith),
  h 6 (omega arith),
  h 7 (omega arith),
)

-- One byte of the accumulator after index `j`.
lane : (ℕ → ℕ) → ℕ → ℕ
lane c zero = 128 * c 0
lane c (suc j) = lane c j / 2 + 128 * c (suc j)

lane-lt : (c : ℕ → ℕ) → IsDigits c → (j : ℕ) → lane c j < 2 ^ 8
unfolding lane
lane-lt c d zero = omega (arith, d 0)
lane-lt c d (suc j) = omega (arith, d (suc j), lane-lt c d j)

lane_even : (c : ℕ → ℕ) (j : ℕ) → j < 7 → lane c j % 2 ≡ 0
unfolding lane
lane_even c j h =
    below_8 (λ j. j < 7 → lane c j % 2 ≡ 0) (λ h. omega arith) (λ h. omega arith) (λ h. omega arith)
      (λ h. omega arith) (λ h. omega arith) (λ h. omega arith) (λ h. omega arith)
      (λ h. absurd (omega arith)) j (omega arith) h

lane-octet : (c : ℕ → ℕ) → lane c 7 ≡ octet c
unfolding lane octet
lane-octet c = omega arith

-- A digit above seven others.
or_top : (a p : ℕ) → a < 2 ^ 7 → bit_or a (128 * p) ≡ a + 128 * p
or_top a p h = ground (arith, bit_or_fields 7 0 a p 0 h, bit_or_none a, bit_or-bitwise 0 p)

word4_or :
    (a b c d a' b' c' d' : ℕ)
    → a < 2 ^ 8
    → b < 2 ^ 8
    → c < 2 ^ 8
    → a' < 2 ^ 8
    → b' < 2 ^ 8
    → c' < 2 ^ 8
    → bit_or (word4 a b c d) (word4 a' b' c' d')
      ≡ word4 (bit_or a a') (bit_or b b') (bit_or c c') (bit_or d d')
word4_or a b c d a' b' c' d' ha hb hc ha' hb' hc' = ground (
  arith,
  bit_or_fields 8 ((d * 2 ^ 8 + c) * 2 ^ 8 + b) a ((d' * 2 ^ 8 + c') * 2 ^ 8 + b') a',
  bit_or_fields 8 (d * 2 ^ 8 + c) b (d' * 2 ^ 8 + c') b',
  bit_or_fields 8 d c d' c',
)

module _ (t : List ℕ) (f : ℕ → ℕ → ℕ) (digits : (k : ℕ) → IsDigits (f k))
    (spread : (s : ℕ)
      → s < 2 ^ 8
      → get_or t s 0 ≡ word4 (128 * f 0 s) (128 * f 1 s) (128 * f 2 s) (128 * f 3 s))
    (x : ℕ → ℕ) (small : (j : ℕ) → x j < 2 ^ 8) where
  -- The accumulator after index `j`.
  chain : ℕ → ℕ
  chain zero = get_or t (x 0) 0
  chain (suc j) = shift_in (chain j) (get_or t (x (suc j)) 0)

  abbrev row : ℕ → ℕ → ℕ
  row k j = f k (x j)

  abbrev lanes : ℕ → ℕ
  lanes j = word4 (lane (row 0) j) (lane (row 1) j) (lane (row 2) j) (lane (row 3) j)

  halved :
      (j : ℕ)
      → j < 7
      → lanes j / 2
        ≡ word4 (lane (row 0) j / 2) (lane (row 1) j / 2) (lane (row 2) j / 2) (lane (row 3) j / 2)
  halved j h = omega (
    arith,
    lane_even (row 0) j h,
    lane_even (row 1) j h,
    lane_even (row 2) j h,
    lane_even (row 3) j h,
  )

  lane_or : (k j : ℕ) → bit_or (lane (row k) j / 2) (128 * row k (suc j)) ≡ lane (row k) (suc j)
  unfolding lane
  lane_or k j =
      or_top (lane (row k) j / 2) (row k (suc j))
        (omega (arith, lane-lt (row k) (λ j. digits k (x j)) j))

  chain-lanes : (j : ℕ) → j < 8 → chain j ≡ lanes j
  unfolding chain lane
  chain-lanes zero h = spread (x 0) (small 0)
  chain-lanes (suc j) h =
      let low : (k : ℕ) → lane (row k) j / 2 < 2 ^ 8 =
        λ k. omega (arith, lane-lt (row k) (λ j. digits k (x j)) j) in
      let top : (k : ℕ) → 128 * row k (suc j) < 2 ^ 8 = λ k. omega (arith, digits k (x (suc j))) in
      let joined =
        word4_or (lane (row 0) j / 2) (lane (row 1) j / 2) (lane (row 2) j / 2) (lane (row 3) j / 2)
          (128 * row 0 (suc j)) (128 * row 1 (suc j)) (128 * row 2 (suc j)) (128 * row 3 (suc j))
          (low 0) (low 1) (low 2) (top 0) (top 1) (top 2) in
      rw
        (
          chain-lanes j (omega arith),
          spread (x (suc j)) (small (suc j)),
          halved j (omega arith),
          joined,
          lane_or 0 j,
          lane_or 1 j,
          lane_or 2 j,
          lane_or 3 j,
        )
        refl

  -- What `transpose` makes of its eight indices.
  pub transpose-octets :
      transpose t (x 0) (x 1) (x 2) (x 3) (x 4) (x 5) (x 6) (x 7)
      ≡ word4 (octet (row 0)) (octet (row 1)) (octet (row 2)) (octet (row 3))
  unfolding transpose chain
  transpose-octets =
      chain-lanes 7 (omega arith)
      ∙ rw (lane-octet (row 0), lane-octet (row 1), lane-octet (row 2), lane-octet (row 3)) refl
