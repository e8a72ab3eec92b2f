-- ===== src/Des/Tests.antt =====
-- Runs of the DES model against published test values.
use leo_net.Base.{ℕ, ◌-◌, ◌==◌, if◌then◌else◌, ◌<◌, ◌≡◌, refl, some, List, [], ◌∷◌, ◌>>=◌, arith}
use leo_net.Base.Lists.{length, take, get_or}
use leo_net.Base.Endian.{IsBytes, Small-IsBytes}
use leo_net.Base.Memory.{load_block, slice}
use leo_net.Des.Boxes.{psboxes}
use leo_net.Des.Transposes.{ip_l, ip_r, ip_inv_l, ip_inv_r}
use leo_net.Des.Schedule.{
  des_setkey, round_keys, nshifts, pc1, pc2_c, pc2_d, choose, choose_bits, rotate28, pick_bits,
  round_key, shift_halves,
}
use leo_net.Des.Schedule.Sixes.{IsSixes, des_setkey-IsSixes}
use leo_net.Des.Inverse.{IsBlock, swap}
use leo_net.Des.Standard.{initial_permutation, iterations}
use leo_net.Des.Standard.Cipher.{crypt_block-standard}
use leo_net.Des.Standard.Keys.{key_schedule}
use leo_net.Des.Crypt.{crypt_block_decrypt}
use leo_net.Des.Ecb.{ecb_crypt_decrypt}
use leo_net.Des.Cbc.{cbc_crypt_decrypt}
use leo_net.Des.{
  des_encrypt, des_decrypt, device_error, rounded, ecb_crypt, cbc_crypt, crypt_block,
  initial_transpose, final_transpose, final_word, put_word, byte, transpose, rounds_up, rounds_down,
  crypt_round, substitute, ps, rol1, ror4,
}

abbrev key : List ℕ
key = 0x13 ∷ 0x34 ∷ 0x57 ∷ 0x79 ∷ 0x9b ∷ 0xbc ∷ 0xdf ∷ 0xf1 ∷ []

abbrev plain : List ℕ
plain = 0x01 ∷ 0x23 ∷ 0x45 ∷ 0x67 ∷ 0x89 ∷ 0xab ∷ 0xcd ∷ 0xef ∷ []

abbrev cipher : List ℕ
cipher = 0x85 ∷ 0xe8 ∷ 0x13 ∷ 0x54 ∷ 0x0f ∷ 0x0a ∷ 0xb4 ∷ 0x05 ∷ []

crypt_plain : (des_setkey key >>= λ keys. some (crypt_block keys 0 plain)) ≡ some cipher
unfolding des_setkey round_keys nshifts pc1 pc2_c pc2_d choose choose_bits rotate28 pick_bits
    round_key shift_halves load_block slice crypt_block initial_transpose final_transpose final_word
    put_word byte transpose rounds_up rounds_down crypt_round substitute ps rol1 ror4 psboxes ip_l
    ip_r ip_inv_l ip_inv_r
crypt_plain = refl

abbrev key_words : List (ℕ × ℕ)
key_words = round_keys nshifts (choose 0 key (record { c = 0; d = 0 }))

plain-IsBlock : IsBlock plain
plain-IsBlock = record { eight = refl; bytes = Small-IsBytes plain (omega arith) }

key-IsBytes : IsBytes key
key-IsBytes = Small-IsBytes key (omega arith)

crypt_block_decrypt_example :
    crypt_block key_words des_decrypt (crypt_block key_words des_encrypt plain) ≡ plain
crypt_block_decrypt_example = crypt_block_decrypt key_words plain plain-IsBlock

-- Ten bytes are rounded up to two blocks.
abbrev two_blocks : List ℕ
two_blocks = 1 ∷ 2 ∷ 3 ∷ 4 ∷ 5 ∷ 6 ∷ 7 ∷ 8 ∷ 9 ∷ 10 ∷ 0 ∷ 0 ∷ 0 ∷ 0 ∷ 0 ∷ 0 ∷ []

two_blocks-IsBytes : IsBytes two_blocks
two_blocks-IsBytes = Small-IsBytes two_blocks (omega arith)

ecb_crypt_decrypt_example :
    (mid : List ℕ) × (ecb_crypt key two_blocks 10 des_encrypt
      ≡ some (device_error des_encrypt, mid))
    × (length mid ≡ length two_blocks)
    × (ecb_crypt key mid 10 des_decrypt ≡ some (device_error des_decrypt, two_blocks))
unfolding rounded
ecb_crypt_decrypt_example =
    ecb_crypt_decrypt key two_blocks 10 des_encrypt des_decrypt (omega arith) two_blocks-IsBytes
      (omega arith) refl refl

cbc_crypt_decrypt_example :
    (mid iv' : List ℕ) × (cbc_crypt key two_blocks 10 des_encrypt plain
      ≡ some (device_error des_encrypt, mid, iv'))
    × (length mid ≡ length two_blocks)
    × (cbc_crypt key mid 10 des_decrypt plain ≡ some (device_error des_decrypt, two_blocks, iv'))
unfolding rounded
cbc_crypt_decrypt_example =
    cbc_crypt_decrypt key two_blocks plain 10 des_encrypt des_decrypt (omega arith) plain-IsBlock
      two_blocks-IsBytes (omega arith) refl refl

crypt_block-standard_example :
    (keys : List (ℕ × ℕ)) × (des_setkey key ≡ some keys)
    × ((flag : ℕ) (s : List ℕ)
        → IsBytes s
        → initial_permutation (crypt_block keys flag s)
          ≡ swap (
              iterations
                (λ j. key_schedule (take 8 key) (if flag == 0 then j else 15 - j))
                16
                0
                (initial_permutation s)))
crypt_block-standard_example = crypt_block-standard key (omega arith) key-IsBytes

des_setkey-IsSixes_example :
    (keys : List (ℕ × ℕ)) × (des_setkey key ≡ some keys)
    × (length keys ≡ 16)
    × ((i : ℕ) → i < 16 → IsSixes (get_or keys i (0, 0)).0 × IsSixes (get_or keys i (0, 0)).1)
des_setkey-IsSixes_example = des_setkey-IsSixes key (omega arith)
