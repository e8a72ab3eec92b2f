-- ===== src/Crc/Table.antt =====
-- What `initial_crc32_table` (src/leo_dof_crypto.c) writes, and where it leaves its array.
use leo_net.Base.{
  ltb→lt, ◌^◌, true, ℕ, zero, suc, ◌+◌, ◌/◌, ◌%◌, ◌≤◌, ◌<◌, ◌≡◌, ◌∙◌, ◌↔◌, refl, bit_xor, some,
  none, List, ◌==◌, if◌then◌else◌, shl32, arith, all_indices, test_from, all_indices-passes, ==_iff,
  ltb,
}
use native.Mathlib.Decide.{dec_lt}
use leo_net.Base.Lists.{length, get_or, set, length-set, get_or-set, get_elem?-eq-get_or}
use leo_net.Base.Memory.{store_elem, store_elem_lem, store_elem-eq-none}
use leo_net.Crc.{
  reflect, reflect_loop, shift_entry, shift_rounds, fill_entry, fill_from, initial_crc32_table,
}

abbrev iterate : ℕ → (ℕ → ℕ) → ℕ → ℕ
iterate zero f x = x
iterate (suc n) f x = iterate n f (f x)

-- The value that ends up at index `i`.
pub crc_entry : ℕ → ℕ
crc_entry i = reflect (iterate 8 shift_entry (shl32 (reflect i 8) 24)) 32

shift_rounds-eq :
    (n i : ℕ) (table : List ℕ)
    → i < length table
    → (out : List ℕ) × (shift_rounds n i table ≡ some out)
      × (length out ≡ length table)
      × ((j : ℕ)
          → get_or out j 0
            ≡ (if i == j then iterate n shift_entry (get_or table i 0) else get_or table j 0))
unfolding shift_rounds
shift_rounds-eq zero i table h = (table, refl, refl, λ j. ground arith)
shift_rounds-eq (suc n) i table h =
    let half : List ℕ = set table i (shift_entry (get_or table i 0)) in
    let same : length half ≡ length table = length-set table i (shift_entry (get_or table i 0)) in
    let (out, runs, long, values) = shift_rounds-eq n i half (omega arith) in
    (
      out,
      rw
          (
            get_elem?-eq-get_or table i 0 h,
            store_elem_lem table i (shift_entry (get_or table i 0)) h,
          )
          runs,
      long ∙ same,
      λ j. ground (
        arith,
        values j,
        get_or-set table i j (shift_entry (get_or table i 0)) 0,
        get_or-set table i i (shift_entry (get_or table i 0)) 0,
      ),
    )

fill_entry-eq :
    (i : ℕ) (table : List ℕ)
    → i < length table
    → (out : List ℕ) × (fill_entry i table ≡ some out)
      × (length out ≡ length table)
      × ((j : ℕ) → get_or out j 0 ≡ (if i == j then crc_entry i else get_or table j 0))
unfolding fill_entry crc_entry
fill_entry-eq i table h =
    let first : ℕ = shl32 (reflect i 8) 24 in
    let started : List ℕ = set table i first in
    let same : length started ≡ length table = length-set table i first in
    let (shifted, runs, long, values) = shift_rounds-eq 8 i started (omega arith) in
    let x : ℕ = get_or shifted i 0 in
    (
      set shifted i (reflect x 32),
      rw
          (
            store_elem_lem table i first h,
            runs,
            get_elem?-eq-get_or shifted i 0 (omega arith),
            store_elem_lem shifted i (reflect x 32) (omega arith),
          )
          refl,
      length-set shifted i (reflect x 32) ∙ long ∙ same,
      λ j. ground (
        arith,
        get_or-set shifted i j (reflect x 32) 0,
        values j,
        values i,
        get_or-set table i j first 0,
        get_or-set table i i first 0,
      ),
    )

fill_from-eq :
    (left i hi : ℕ) (table : List ℕ)
    → i + left ≡ hi
    → hi ≤ length table
    → (out : List ℕ) × (fill_from left i table ≡ some out)
      × (length out ≡ length table)
      × ((j : ℕ)
          → get_or out j 0 ≡ (
              if ltb j i
              then get_or table j 0
              else if ltb j hi
              then crc_entry j
              else get_or table j 0))
unfolding fill_from
fill_from-eq zero i hi table e h = (table, refl, refl, λ j. ground arith)
fill_from-eq (suc left) i hi table e h =
    let (half, runs, long, values) = fill_entry-eq i table (omega arith) in
    let (out, runs', long', values') =
      fill_from-eq left (i + 1) hi half (omega arith) (omega arith) in
    (out, rw runs runs', long' ∙ long, λ j. ground (arith, values' j, values j))

fill_from-none :
    (left i : ℕ) (table : List ℕ)
    → i ≤ length table
    → length table < i + left
    → fill_from left i table ≡ none
unfolding fill_from
fill_from-none zero i table h k = absurd (omega arith)
fill_from-none (suc left) i table h k = elim (dec_lt i (length table)) [
  | yes inside ↦
      let (half, runs, long, _) = fill_entry-eq i table inside in
      rw runs (fill_from-none left (i + 1) half (omega arith) (omega arith))
  | no outside ↦
      let refused : store_elem table i (shl32 (reflect i 8) 24) ≡ none =
        store_elem-eq-none table i (shl32 (reflect i 8) 24) (omega arith) in
      let fails : fill_entry i table ≡ none = unfold fill_entry in rw refused refl in rw fails refl
]

-- The usual table of the reflected polynomial, lowest bit first.
pub reflected_step : ℕ → ℕ
reflected_step x = if x % 2 == 0 then x / 2 else bit_xor (x / 2) 0xedb88320

pub reflected_entry : ℕ → ℕ
reflected_entry i = iterate 8 reflected_step i

entries_agree : all_indices (λ i. crc_entry i == reflected_entry i) 256 ≡ true
unfolding all_indices test_from crc_entry reflected_entry reflected_step shift_entry reflect
    reflect_loop
entries_agree = refl

crc_entry-eq : (i : ℕ) → i < 256 → crc_entry i ≡ reflected_entry i
crc_entry-eq i h =
    (==_iff _ _).0
      (all_indices-passes (λ i. crc_entry i == reflected_entry i) 256 entries_agree i h)

entries_small : all_indices (λ i. ltb (reflected_entry i) (2 ^ 32)) 256 ≡ true
unfolding all_indices test_from reflected_entry reflected_step
entries_small = refl

pub reflected_entry-lt : (i : ℕ) → i < 256 → reflected_entry i < 2 ^ 32
reflected_entry-lt i h =
    ltb→lt _ _ (all_indices-passes (λ i. ltb (reflected_entry i) (2 ^ 32)) 256 entries_small i h)

-- Given an array of at least 256 words, `initial_crc32_table` fills the first 256 with the table of
-- the reflected polynomial 0xedb88320 and leaves the others alone.
pub initial_crc32_table_lem :
    (table : List ℕ)
    → 256 ≤ length table
    → (out : List ℕ) × (initial_crc32_table table ≡ some out)
      × (length out ≡ length table)
      × ((j : ℕ) → get_or out j 0 ≡ (if ltb j 256 then reflected_entry j else get_or table j 0))
unfolding initial_crc32_table
initial_crc32_table_lem table h =
    let (out, runs, long, values) = fill_from-eq 256 0 256 table refl h in
    (out, runs, long, λ j. ground (arith, values j, crc_entry-eq j))

-- `initial_crc32_table` stays inside its array exactly when that has 256 words.
pub initial_crc32_table_iff :
    (table : List ℕ)
    → ((out : List ℕ) × (initial_crc32_table table ≡ some out)) ↔ (256 ≤ length table)
unfolding initial_crc32_table
initial_crc32_table_iff table = (
  λ (out, runs). elim (dec_lt (length table) 256) [
    | yes short ↦ absurd (cc (runs, fill_from-none 256 0 table (omega arith) (omega arith)))
    | no long ↦ omega arith
  ],
  λ h. let (out, runs, _, _) = initial_crc32_table_lem table h in (out, runs),
)
