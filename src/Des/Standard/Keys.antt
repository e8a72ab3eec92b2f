-- ===== src/Des/Standard/Keys.antt =====
-- The key schedule of DES as FIPS 46-3 states it, what `des_setkey` of src/leo_des_crypto.c is to be
-- compared with.
pub mod Or
pub mod Lanes
pub mod Choice
pub mod Schedule
use leo_net.Base.{ℕ, zero, suc, ◌+◌, ◌-◌, ◌*◌, ◌/◌, ◌%◌, ◌^◌, List, [], ◌∷◌}
use leo_net.Base.Lists.{get_or}
use leo_net.Des.Schedule.{Halves}
use leo_net.Des.Standard.{select_from, select_rows}

-- The two parts of PC-1, for `C` and for `D`.
unfoldable pub pc1_left : List (List ℕ)
pc1_left =
    (57 ∷ 49 ∷ 41 ∷ 33 ∷ 25 ∷ 17 ∷ 9 ∷ [])
    ∷ (1 ∷ 58 ∷ 50 ∷ 42 ∷ 34 ∷ 26 ∷ 18 ∷ [])
    ∷ (10 ∷ 2 ∷ 59 ∷ 51 ∷ 43 ∷ 35 ∷ 27 ∷ [])
    ∷ (19 ∷ 11 ∷ 3 ∷ 60 ∷ 52 ∷ 44 ∷ 36 ∷ [])
    ∷ []

unfoldable pub pc1_right : List (List ℕ)
pc1_right =
    (63 ∷ 55 ∷ 47 ∷ 39 ∷ 31 ∷ 23 ∷ 15 ∷ [])
    ∷ (7 ∷ 62 ∷ 54 ∷ 46 ∷ 38 ∷ 30 ∷ 22 ∷ [])
    ∷ (14 ∷ 6 ∷ 61 ∷ 53 ∷ 45 ∷ 37 ∷ 29 ∷ [])
    ∷ (21 ∷ 13 ∷ 5 ∷ 28 ∷ 20 ∷ 12 ∷ 4 ∷ [])
    ∷ []

unfoldable pub pc2_table : List (List ℕ)
pc2_table =
    (14 ∷ 17 ∷ 11 ∷ 24 ∷ 1 ∷ 5 ∷ [])
    ∷ (3 ∷ 28 ∷ 15 ∷ 6 ∷ 21 ∷ 10 ∷ [])
    ∷ (23 ∷ 19 ∷ 12 ∷ 4 ∷ 26 ∷ 8 ∷ [])
    ∷ (16 ∷ 7 ∷ 27 ∷ 20 ∷ 13 ∷ 2 ∷ [])
    ∷ (41 ∷ 52 ∷ 31 ∷ 37 ∷ 47 ∷ 55 ∷ [])
    ∷ (30 ∷ 40 ∷ 51 ∷ 45 ∷ 33 ∷ 48 ∷ [])
    ∷ (44 ∷ 49 ∷ 39 ∷ 56 ∷ 34 ∷ 53 ∷ [])
    ∷ (46 ∷ 42 ∷ 50 ∷ 36 ∷ 29 ∷ 32 ∷ [])
    ∷ []

abbrev pub left_shifts : List ℕ
left_shifts = 1 ∷ 1 ∷ 2 ∷ 2 ∷ 2 ∷ 2 ∷ 2 ∷ 2 ∷ 1 ∷ 2 ∷ 2 ∷ 2 ∷ 2 ∷ 2 ∷ 2 ∷ 1 ∷ []

unfoldable pub permuted_choice_1 : List ℕ → Halves
permuted_choice_1 key = record { c = select_rows key 0 pc1_left; d = select_rows key 0 pc1_right }

-- The group `i` of the 48 bits that PC-2 takes from the 56 of `C` and `D`.
unfoldable pub permuted_choice_2 : Halves → ℕ → ℕ
permuted_choice_2 h i = select_from 0 (get_or pc2_table i []) 56 (h.c * 2 ^ 28 + h.d)

-- The 28 bits moved left by `n` places, those that fall out put in on the right.
unfoldable pub left_shift : ℕ → ℕ → ℕ
left_shift n x = x * 2 ^ n % 2 ^ 28 + x / 2 ^ (28 - n)

-- `C` and `D` after the first `n` of the shifts.
unfoldable pub shifted : List ℕ → ℕ → Halves → Halves
shifted shifts zero h = h
shifted [] (suc n) h = h
shifted (k ∷ shifts) (suc n) h =
    shifted shifts n (record { c = left_shift k h.c; d = left_shift k h.d })

-- The groups of the key of the iteration `n`, counted from 0.
unfoldable pub key_schedule : List ℕ → ℕ → ℕ → ℕ
key_schedule key n = permuted_choice_2 (shifted left_shifts (suc n) (permuted_choice_1 key))
