-- ===== src/Des/Ecb.antt =====
-- `ecb_crypt` (src/leo_des_crypto.c): each block on its own.
use leo_net.Base.{
  ℕ, zero, suc, ◌+◌, ◌*◌, ◌/◌, ◌≤◌, ◌≡◌, ◌∙◌, sym, refl, ap, ap₂, some, List, ◌++◌, arith, bit_and,
}
use mathlib.Core.List.{append_assoc}
use leo_net.Base.Lists.{
  length, take, drop, take-drop, take-part, drop-part, length-drop, length-append,
}
use leo_net.Base.Memory.{splice, length-splice, load_block_lem, slice}
use leo_net.Base.Endian.{IsBytes}
use leo_net.Des.Schedule.{des_setkey, round_keys, nshifts, choose}
use leo_net.Des.{
  crypt_block, ecb_blocks, ecb_crypt, rounded, device_error, des_dirmask, des_encrypt, des_decrypt,
}
use leo_net.Des.Crypt.{crypt_block-IsBlock, crypt_block_decrypt}
use leo_net.Des.Blocks.{stored_front, stored_rest, des_crypt-splice, take-IsBlock, drop-IsBytes}

-- The loop on the bytes still to come.
pub ecb_list : List (ℕ × ℕ) → ℕ → ℕ → List ℕ → List ℕ
ecb_list keys flag zero xs = xs
ecb_list keys flag (suc left) xs =
    crypt_block keys flag (take 8 xs) ++ ecb_list keys flag left (drop 8 xs)

ecb_blocks-list :
    (keys : List (ℕ × ℕ)) (flag left at : ℕ) (buf : List ℕ)
    → at + 8 * left ≤ length buf
    → ecb_blocks keys flag left at buf ≡ some (take at buf ++ ecb_list keys flag left (drop at buf))
unfolding ecb_blocks ecb_list
ecb_blocks-list keys flag zero at buf h = ap some (sym (take-drop at buf))
ecb_blocks-list keys flag (suc left) at buf h =
    let s = take 8 (drop at buf) in
    let c = crypt_block keys flag s in
    let eight = (crypt_block-IsBlock keys flag s).eight in
    let fits : at + 8 ≤ length buf = omega arith in
    rw (des_crypt-splice keys flag at buf fits) (
      ecb_blocks-list keys flag left (at + 8) (splice at c buf)
        (omega (arith, length-splice at c buf, eight))
      ∙ (ap₂ (λ f r. some (f ++ ecb_list keys flag left r)) (stored_front at c buf eight fits)
            (stored_rest at c buf eight fits)
          ∙ ap some
              (append_assoc (take at buf) c (ecb_list keys flag left (drop 8 (drop at buf))))))

length-ecb_list :
    (keys : List (ℕ × ℕ)) (flag left : ℕ) (xs : List ℕ)
    → 8 * left ≤ length xs
    → length (ecb_list keys flag left xs) ≡ length xs
unfolding ecb_list
length-ecb_list keys flag zero xs h = refl
length-ecb_list keys flag (suc left) xs h = omega (
  arith,
  length-append (crypt_block keys flag (take 8 xs)) (ecb_list keys flag left (drop 8 xs)),
  (crypt_block-IsBlock keys flag (take 8 xs)).eight,
  length-ecb_list keys flag left (drop 8 xs),
  length-drop 8 xs,
)

ecb_list_decrypt :
    (keys : List (ℕ × ℕ)) (left : ℕ) (xs : List ℕ)
    → 8 * left ≤ length xs
    → IsBytes xs
    → ecb_list keys des_decrypt left (ecb_list keys des_encrypt left xs) ≡ xs
unfolding ecb_list
ecb_list_decrypt keys zero xs h bytes = refl
ecb_list_decrypt keys (suc left) xs h bytes =
    let c = crypt_block keys des_encrypt (take 8 xs) in
    let eight = (crypt_block-IsBlock keys des_encrypt (take 8 xs)).eight in
    let rest = ecb_list keys des_encrypt left (drop 8 xs) in
    ap₂ (λ b r. crypt_block keys des_decrypt b ++ ecb_list keys des_decrypt left r)
      (take-part c rest 8 eight) (drop-part c rest 8 eight)
    ∙ (ap₂ ◌++◌ (crypt_block_decrypt keys (take 8 xs) (take-IsBlock xs (omega arith) bytes)) (
          ecb_list_decrypt keys left (drop 8 xs) (omega (arith, length-drop 8 xs))
            (drop-IsBytes xs bytes))
        ∙ take-drop 8 xs)

-- A key of eight bytes gives sixteen pairs of key words.
pub des_setkey_lem :
    (key : List ℕ) → 8 ≤ length key → (keys : List (ℕ × ℕ)) × (des_setkey key ≡ some keys)
unfolding des_setkey
des_setkey_lem key long =
    let keys = round_keys nshifts (choose 0 (slice 0 8 key) (record { c = 0; d = 0 })) in
    (keys, rw (load_block_lem key 0 8 long) refl)

-- With a key of eight bytes and a buffer of bytes with room for `len` rounded up to whole blocks,
-- `ecb_crypt` in a mode for encryption followed by `ecb_crypt` in one for decryption runs without an
-- access out of range and gives the buffer back. What each returns depends on its mode alone.
pub ecb_crypt_decrypt :
    (key buf : List ℕ) (len mode mode' : ℕ)
    → 8 ≤ length key
    → IsBytes buf
    → rounded len ≤ length buf
    → bit_and mode des_dirmask ≡ des_encrypt
    → bit_and mode' des_dirmask ≡ des_decrypt
    → (mid : List ℕ) × (ecb_crypt key buf len mode ≡ some (device_error mode, mid))
      × (length mid ≡ length buf)
      × (ecb_crypt key mid len mode' ≡ some (device_error mode', buf))
unfolding ecb_crypt
ecb_crypt_decrypt key buf len mode mode' long bytes room up down =
    let (keys, sets) = des_setkey_lem key long in
    let left = rounded len / 8 in
    let mid = ecb_list keys des_encrypt left buf in
    let same = length-ecb_list keys des_encrypt left buf (omega arith) in
    (
      mid,
      rw (sets, up, ecb_blocks-list keys des_encrypt left 0 buf (omega arith)) refl,
      same,
      rw (sets, down, ecb_blocks-list keys des_decrypt left 0 mid (omega (arith, same)))
          (ap (λ b. some (device_error mode', b))
            (ecb_list_decrypt keys left buf (omega arith) bytes)),
    )
