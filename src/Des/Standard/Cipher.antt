-- ===== src/Des/Standard/Cipher.antt =====
-- `des_setkey` and then `des_crypt` on a block (src/leo_des_crypto.c) against the whole of FIPS 46-3.
use leo_net.Base.{
  ℕ, zero, suc, ◌+◌, ◌-◌, ◌≤◌, ◌<◌, ◌≡◌, ◌∙◌, refl, ap, true, bit_xor, some, List, arith, leb, ◌&&◌,
  all_indices, test_from, all_indices-passes, ◌==◌, if◌then◌else◌,
}
use leo_net.Base.Lists.{length, get_or, take, get_or-take, length-take}
use leo_net.Base.Memory.{load_block_lem, slice}
use leo_net.Base.Endian.{IsBytes}
use leo_net.Des.{Words, crypt_block, key_at}
use leo_net.Des.Inverse.{swap}
use leo_net.Des.Schedule.{des_setkey, nshifts, round_keys}
use leo_net.Des.Standard.{
  iteration, iterations, groups, cipher_function, permutation, expansion, initial_permutation,
}
use leo_net.Des.Standard.Round.{s_boxes_ext}
use leo_net.Des.Standard.Block.{crypt_block-iterations}
use leo_net.Des.Standard.Keys.{key_schedule, permuted_choice_1}
use leo_net.Des.Standard.Keys.Choice.{choose-permuted_choice_1, permuted_choice_1-Small}
use leo_net.Des.Standard.Keys.Schedule.{round_keys-shifted}

abbrev Agree : (ℕ → ℕ) → (ℕ → ℕ) → Type 0
Agree key key' = (i : ℕ) → i < 8 → key i ≡ key' i

-- Only the eight groups of a key matter.
iteration_ext : (key key' : ℕ → ℕ) (w : Words) → Agree key key' → iteration key w ≡ iteration key' w
unfolding iteration cipher_function
iteration_ext key key' w e =
    ap (λ (x : ℕ). record { l = w.r; r = bit_xor w.l (permutation x) })
      (s_boxes_ext (λ i. bit_xor (expansion i w.r) (key i))
        (λ i. bit_xor (expansion i w.r) (key' i)) (λ i h. ap (bit_xor (expansion i w.r)) (e i h)) 8
        (omega arith))

iterations_ext :
    (keys keys' : ℕ → ℕ → ℕ) (n i : ℕ) (w : Words)
    → ((j : ℕ) → j < i + n → Agree (keys j) (keys' j))
    → iterations keys n i w ≡ iterations keys' n i w
unfolding iterations
iterations_ext keys keys' zero i w e = refl
iterations_ext keys keys' (suc n) i w e =
    ap (iterations keys n (i + 1)) (iteration_ext (keys i) (keys' i) w (e i (omega arith)))
    ∙ iterations_ext keys keys' n (i + 1) (iteration (keys' i) w) (λ j h. e j (omega arith))

one_or_two : all_indices (λ i. leb 1 (get_or nshifts i 0) && leb (get_or nshifts i 0) 2) 16 ≡ true
unfolding all_indices test_from nshifts
one_or_two = refl

shift_places : (i : ℕ) → i < length nshifts → (1 ≤ get_or nshifts i 0) × (get_or nshifts i 0 ≤ 2)
unfolding nshifts
shift_places i h =
    let checked =
      all_indices-passes (λ i. leb 1 (get_or nshifts i 0) && leb (get_or nshifts i 0) 2) 16
        one_or_two i h in
    ground (arith, checked)

-- The key words of the sixteen rounds hold the standard's keys.
des_setkey-key_schedule :
    (key : List ℕ)
    → 8 ≤ length key
    → IsBytes key
    → (keys : List (ℕ × ℕ)) × (des_setkey key ≡ some keys)
      × ((n : ℕ) → n < 16 → Agree (groups (key_at keys n)) (key_schedule (take 8 key) n))
unfolding des_setkey key_schedule slice
des_setkey-key_schedule key long small =
    let bytes = take 8 key in
    let bytes_small : IsBytes bytes = λ p. ground (arith, get_or-take 8 key p 0, small p) in
    let h = permuted_choice_1 bytes in
    let e = choose-permuted_choice_1 bytes (omega (arith, length-take 8 key)) bytes_small in
    (
      round_keys nshifts h,
      rw (load_block_lem key 0 8 long) (ap (λ g. some (round_keys nshifts g)) e),
      λ n low.
          unfold nshifts in
          round_keys-shifted nshifts h n shift_places (permuted_choice_1-Small bytes) low,
    )

-- From a key of at least eight bytes `des_setkey` makes key words with which, for every block of
-- bytes, the initial permutation of the block that comes out is the preoutput of FIPS 46-3
-- under the first eight bytes of the key: the two words that the sixteen iterations leave,
-- exchanged. The iterations take the standard's keys in order with `flag` 0 and backwards otherwise.
pub crypt_block-standard :
    (key : List ℕ)
    → 8 ≤ length key
    → IsBytes key
    → (keys : List (ℕ × ℕ)) × (des_setkey key ≡ some keys)
      × ((flag : ℕ) (s : List ℕ)
          → IsBytes s
          → initial_permutation (crypt_block keys flag s)
            ≡ swap (
                iterations
                  (λ j. key_schedule (take 8 key) (if flag == 0 then j else 15 - j))
                  16
                  0
                  (initial_permutation s)))
crypt_block-standard key long small =
    let (keys, runs, agree) = des_setkey-key_schedule key long small in
    (
      keys,
      runs,
      λ flag s bytes.
          crypt_block-iterations keys flag s bytes
          ∙ ap swap (
              iterations_ext (λ j. groups (key_at keys (if flag == 0 then j else 15 - j)))
                (λ j. key_schedule (take 8 key) (if flag == 0 then j else 15 - j)) 16 0
                (initial_permutation s)
                (λ j h. agree (if flag == 0 then j else 15 - j) (ground arith))),
    )
