-- ===== src/Xor/Keys/Rows.antt =====
-- What `initial_xor_keys` and `rand_xor_key` (src/leo_dof_crypto.c) make of the table.
use leo_net.Base.{
  ℕ, zero, suc, ◌+◌, ◌-◌, ◌*◌, ◌/◌, ◌%◌, ◌≤◌, ◌<◌, ◌≡◌, ◌∙◌, refl, ap, ◌&&◌, some, List, ltb, leb,
  ◌==◌, if◌then◌else◌, u8, arith,
}
use std.Path.{subst}
use native.Mathlib.Decide.{dec_lt}
use leo_net.Base.Endian.{IsBytes}
use leo_net.Base.Lists.{get_or-eq_of_le, length, get_or, set, length-set, get_or-set}
use leo_net.Base.Memory.{store_elem_lem}
use leo_net.Xor.Keys.{rand_between_1_255, fill_key, fill_keys, initial_xor_keys, rand_xor_key}

module _ (rand : ℕ → ℕ) where
  -- The cells from `17 * i + j` on that the inner loop fills.
  fill_key_lem :
      (left i j calls : ℕ) (m : List ℕ)
      → 17 * i + j + left ≤ length m
      → (out : List ℕ) × (fill_key rand left i j calls m ≡ some out)
        × (length out ≡ length m)
        × ((p : ℕ)
            → get_or out p 0 ≡ (
                if leb (17 * i + j) p && ltb p (17 * i + j + left)
                then 1 + rand (calls + (p - (17 * i + j))) % 255
                else get_or m p 0))
  unfolding fill_key
  fill_key_lem zero i j calls m h = (m, refl, refl, λ p. ground arith)
  fill_key_lem (suc left) i j calls m h =
      let at = 17 * i + j in
      let v = u8 (rand_between_1_255 (rand calls)) in
      let (out, runs, same, cells) =
        fill_key_lem left i (j + 1) (calls + 1) (set m at v) (omega (arith, length-set m at v)) in
      (
        out,
        rw (store_elem_lem m at v (omega arith)) runs,
        same ∙ length-set m at v,
        λ p.
            let this : p ≡ at → rand calls ≡ rand (calls + (p - at)) = λ e. ap rand (omega arith) in
            let later : at < p
                → rand (calls + 1 + (p - (17 * i + (j + 1)))) ≡ rand (calls + (p - at)) =
              λ above. ap rand (omega arith) in
            ground (arith, cells p, get_or-set m at p v 0, this, later),
      )

  -- The cells of the rows from `i` on, the last of each row being 0.
  fill_keys_lem :
      (left i calls : ℕ) (m : List ℕ)
      → 17 * (i + left) ≤ length m
      → (out : List ℕ) × (fill_keys rand left i calls m ≡ some out)
        × (length out ≡ length m)
        × ((r c : ℕ)
            → c < 17
            → get_or out (17 * r + c) 0 ≡ (
                if leb i r && ltb r (i + left)
                then (if c == 16 then 0 else 1 + rand (calls + 16 * (r - i) + c) % 255)
                else get_or m (17 * r + c) 0))
  unfolding fill_keys
  fill_keys_lem zero i calls m h = (m, refl, refl, λ r c low. ground arith)
  fill_keys_lem (suc left) i calls m h =
      let (row, filled, row_length, row_cells) = fill_key_lem 16 i 0 calls m (omega arith) in
      let at = 17 * i + 16 in
      let (out, runs, same, cells) =
        fill_keys_lem left (i + 1) (calls + 16) (set row at 0)
          (omega (arith, length-set row at 0)) in
      (
        out,
        rw (filled, store_elem_lem row at 0 (omega arith)) runs,
        same ∙ (length-set row at 0 ∙ row_length),
        λ r c low.
            let this : r ≡ i
                → c < 16
                → rand (calls + (17 * r + c - (17 * i + 0))) ≡ rand (calls + 16 * (r - i) + c) =
              λ e below. ap rand (omega arith) in
            let later : i < r
                → rand (calls + 16 + 16 * (r - (i + 1)) + c) ≡ rand (calls + 16 * (r - i) + c) =
              λ above. ap rand (omega arith) in
            ground (
              arith,
              cells r c low,
              get_or-set row at (17 * r + c) 0 0,
              row_cells (17 * r + c),
              this,
              later,
            ),
      )

  -- On the table's 256 rows of 17 bytes `initial_xor_keys` stays inside, and the row that
  -- `rand_xor_key` points at, whatever `rand` gives it, holds sixteen of the random bytes, none of
  -- them 0, and a 0 behind them.
  pub initial_xor_keys_lem :
      (m : List ℕ) (value : ℕ)
      → length m ≡ 4352
      → (out : List ℕ) × (initial_xor_keys rand m ≡ some out)
        × (length out ≡ 4352)
        × ((c : ℕ)
            → c < 16
            → get_or out (rand_xor_key value + c) 0 ≡ 1 + rand (16 * (value % 256) + c) % 255)
        × (get_or out (rand_xor_key value + 16) 0 ≡ 0)
  unfolding initial_xor_keys rand_xor_key
  initial_xor_keys_lem m value whole =
      let (out, runs, same, cells) = fill_keys_lem 256 0 0 m (omega arith) in
      let row = value % 256 in
      (
        out,
        runs,
        same ∙ whole,
        λ c low.
            let e : rand (0 + 16 * (row - 0) + c) ≡ rand (16 * row + c) = ap rand (omega arith) in
            ground (arith, cells row c (omega arith), e),
        ground (arith, cells row 16 (omega arith)),
      )

  -- The whole table holds bytes.
  pub initial_xor_keys-IsBytes :
      (m : List ℕ)
      → length m ≡ 4352
      → (out : List ℕ) × (initial_xor_keys rand m ≡ some out) × (length out ≡ 4352) × IsBytes out
  unfolding initial_xor_keys
  initial_xor_keys-IsBytes m whole =
      let (out, runs, same, cells) = fill_keys_lem 256 0 0 m (omega arith) in
      (
        out,
        runs,
        same ∙ whole,
        λ p. elim (dec_lt p 4352) [
          | yes inside ↦
              let at : 17 * (p / 17) + p % 17 ≡ p = omega arith in
              let here = cells (p / 17) (p % 17) (omega arith) in
              subst (λ k. get_or out k 0 < 256) at (ground (arith, here))
          | no outside ↦
              let past = get_or-eq_of_le out p 0 (omega (arith, same)) in omega (arith, past)
        ],
      )
