-- ===== src/Des/Crypt.antt =====
-- One block of DES (src/leo_des_crypto.c) encrypted and decrypted.
use leo_net.Base.{ℕ, ◌≡◌, ◌∙◌, ap, List, arith, if◌then◌else◌, ◌==◌}
use leo_net.Base.Endian.{IsBytes}
use leo_net.Des.{
  Words, crypt_block, initial_transpose, final_transpose, rounds_up, rounds_down, des_encrypt,
  des_decrypt,
}
use leo_net.Des.Permute.{
  column-lt, columns-IsBytes, in_turn, initial_transpose-columns, final_transpose-columns,
}
use leo_net.Des.Inverse.{
  IsBlock, length-columns, final_transpose-initial_transpose, initial_transpose-final_transpose,
}
use leo_net.Des.Rounds.{
  Fits, rounds_up-Fits, rounds_down-Fits, rounds_down-rounds_up, rounds_up-rounds_down,
}

pub initial_transpose-Fits : (s : List ℕ) → IsBytes s → Fits (initial_transpose s)
initial_transpose-Fits s bytes =
    let lt = column-lt s in
    rw (initial_transpose-columns s bytes)
      (omega (arith, lt 0, lt 2, lt 4, lt 6), omega (arith, lt 1, lt 3, lt 5, lt 7))

pub final_transpose-IsBytes : (w : Words) → IsBytes (final_transpose w)
final_transpose-IsBytes w = rw (final_transpose-columns w) (columns-IsBytes (in_turn w))

pub crypt_block-IsBlock :
    (keys : List (ℕ × ℕ)) (flag : ℕ) (s : List ℕ) → IsBlock (crypt_block keys flag s)
unfolding crypt_block
crypt_block-IsBlock keys flag s =
    let w =
      if flag == 0
      then rounds_up keys 16 0 (initial_transpose s)
      else rounds_down keys 16 (initial_transpose s) in
    rw (final_transpose-columns w)
      (record { eight = length-columns (in_turn w); bytes = columns-IsBytes (in_turn w) })

-- Whatever the sixteen pairs of key words, decrypting the encryption of a block of eight bytes gives
-- the block back.
pub crypt_block_decrypt :
    (keys : List (ℕ × ℕ)) (s : List ℕ)
    → IsBlock s
    → crypt_block keys des_decrypt (crypt_block keys des_encrypt s) ≡ s
unfolding crypt_block
crypt_block_decrypt keys s block =
    let w = initial_transpose s in
    let fits = rounds_up-Fits keys 16 0 w (initial_transpose-Fits s block.bytes) in
    ap (λ v. final_transpose (rounds_down keys 16 v))
      (initial_transpose-final_transpose (rounds_up keys 16 0 w) fits.0 fits.1)
    ∙ (ap final_transpose (rounds_down-rounds_up keys 16 w)
        ∙ final_transpose-initial_transpose s block)

-- And so does encrypting its decryption.
pub crypt_block_encrypt :
    (keys : List (ℕ × ℕ)) (s : List ℕ)
    → IsBlock s
    → crypt_block keys des_encrypt (crypt_block keys des_decrypt s) ≡ s
unfolding crypt_block
crypt_block_encrypt keys s block =
    let w = initial_transpose s in
    let fits = rounds_down-Fits keys 16 w (initial_transpose-Fits s block.bytes) in
    ap (λ v. final_transpose (rounds_up keys 16 0 v))
      (initial_transpose-final_transpose (rounds_down keys 16 w) fits.0 fits.1)
    ∙ (ap final_transpose (rounds_up-rounds_down keys 16 w)
        ∙ final_transpose-initial_transpose s block)
