-- ===== src/Des/Standard/Block.antt =====
-- A block that `des_crypt` (src/leo_des_crypto.c) has transformed is what the sixteen iterations of
-- FIPS 46-3 make of it.
use leo_net.Base.{
  ℕ, zero, suc, ◌+◌, ◌-◌, ◌≡◌, ◌∙◌, refl, sym, ap, Bool, true, false, List, ◌==◌, if◌then◌else◌,
  arith,
}
use leo_net.Base.Endian.{IsBytes}
use leo_net.Des.{
  Words, initial_transpose, final_transpose, rounds_up, rounds_down, key_at, crypt_block,
}
use leo_net.Des.Inverse.{swap, initial_transpose-final_transpose}
use leo_net.Des.Rounds.{Fits, rounds_up-Fits, rounds_down-Fits, crypt_round-Fits}
use leo_net.Des.Crypt.{initial_transpose-Fits, final_transpose-IsBytes}
use leo_net.Des.Standard.{iteration, iterations, groups, initial_permutation}
use leo_net.Des.Standard.Round.{crypt_round-iteration}
use leo_net.Des.Standard.Initial.{initial_transpose-initial_permutation}

-- The keys of the iterations.
abbrev encryption_keys : List (ℕ × ℕ) → ℕ → ℕ → ℕ
encryption_keys keys j = groups (key_at keys j)

abbrev decryption_keys : List (ℕ × ℕ) → ℕ → ℕ → ℕ
decryption_keys keys j = groups (key_at keys (15 - j))

rounds_up-iterations :
    (keys : List (ℕ × ℕ)) (n i : ℕ) (w : Words)
    → Fits w
    → rounds_up keys n i w ≡ iterations (encryption_keys keys) n i w
unfolding rounds_up iterations
rounds_up-iterations keys zero i w fits = refl
rounds_up-iterations keys (suc n) i w fits =
    rounds_up-iterations keys n (i + 1) _ (crypt_round-Fits (key_at keys i) w fits)
    ∙ ap (iterations (encryption_keys keys) n (i + 1))
        (crypt_round-iteration (key_at keys i) w fits.1)

rounds_down-iterations :
    (keys : List (ℕ × ℕ)) (n i : ℕ) (w : Words)
    → n + i ≡ 16
    → Fits w
    → rounds_down keys n w ≡ iterations (decryption_keys keys) n i w
unfolding rounds_down iterations
rounds_down-iterations keys zero i w e fits = refl
rounds_down-iterations keys (suc n) i w e fits =
    let place : n ≡ 15 - i = omega arith in
    rounds_down-iterations keys n (i + 1) _ (omega arith) (crypt_round-Fits (key_at keys n) w fits)
    ∙ ap (iterations (decryption_keys keys) n (i + 1)) (
        crypt_round-iteration (key_at keys n) w fits.1
        ∙ ap (λ k. iteration (groups (key_at keys k)) w) place)

module _ (keys : List (ℕ × ℕ)) (w : Words) (fits : Fits w) where
  abbrev direction : Bool → Words
  direction up = if up then rounds_up keys 16 0 w else rounds_down keys 16 w

  direction-Fits : (up : Bool) → Fits (direction up)
  direction-Fits true = rounds_up-Fits keys 16 0 w fits
  direction-Fits false = rounds_down-Fits keys 16 w fits

  direction-iterations :
      (up : Bool)
      → direction up ≡ iterations (λ j. groups (key_at keys (if up then j else 15 - j))) 16 0 w
  direction-iterations true = rounds_up-iterations keys 16 0 w fits
  direction-iterations false = rounds_down-iterations keys 16 0 w (omega arith) fits

-- For a block of bytes and any sixteen pairs of key words, the initial permutation of the block that comes
-- out is the preoutput `R16 L16`: the two words that the sixteen iterations leave, exchanged. The
-- iterations take the keys in order with `flag` 0 and backwards otherwise.
pub crypt_block-iterations :
    (keys : List (ℕ × ℕ)) (flag : ℕ) (s : List ℕ)
    → IsBytes s
    → initial_permutation (crypt_block keys flag s)
      ≡ swap (
          iterations
            (λ j. groups (key_at keys (if flag == 0 then j else 15 - j)))
            16
            0
            (initial_permutation s))
unfolding crypt_block
crypt_block-iterations keys flag s small =
    let w = initial_transpose s in
    let fits = initial_transpose-Fits s small in
    let chosen : ℕ → ℕ → ℕ = λ j. groups (key_at keys (if flag == 0 then j else 15 - j)) in
    let v = direction keys w fits (flag == 0) in
    let v_fits = direction-Fits keys w fits (flag == 0) in
    sym (initial_transpose-initial_permutation (final_transpose v) (final_transpose-IsBytes v))
    ∙ (initial_transpose-final_transpose v v_fits.0 v_fits.1
        ∙ (ap swap (direction-iterations keys w fits (flag == 0))
            ∙ ap (λ u. swap (iterations chosen 16 0 u))
                (initial_transpose-initial_permutation s small)))
