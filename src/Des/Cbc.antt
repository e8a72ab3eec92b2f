-- ===== src/Des/Cbc.antt =====
-- `cbc_crypt` (src/leo_des_crypto.c): each block masked with the encryption of the one before.
use leo_net.Base.{
  ℕ, zero, suc, ◌+◌, ◌*◌, ◌/◌, ◌≤◌, ◌≡◌, ◌∙◌, sym, refl, ap, ap₂, some, List, ◌++◌, arith, bit_and,
}
use mathlib.Core.List.{append_assoc}
use leo_net.Base.Lists.{
  length, take, drop, take-drop, take-part, drop-part, length-drop, length-append, length-take,
}
use leo_net.Base.Memory.{
  splice, length-splice, load_block_lem, store_block_lem, slice, splice-splice,
}
use leo_net.Base.Endian.{IsBytes}
use leo_net.Des.{
  crypt_block, cbc_encrypt, cbc_decrypt, cbc_crypt, rounded, device_error, des_dirmask, des_encrypt,
  des_decrypt, xor_bytes,
}
use leo_net.Des.Inverse.{IsBlock}
use leo_net.Des.Crypt.{crypt_block-IsBlock, crypt_block_decrypt}
use leo_net.Des.Blocks.{
  stored_front, stored_rest, des_crypt-splice, take-IsBlock, drop-IsBytes, length-xor_bytes,
  xor_bytes-IsBlock, xor_bytes_cancel, load_stored, load_whole, store_whole, crypt_stored,
}
use leo_net.Des.Ecb.{des_setkey_lem}

module _ (keys : List (ℕ × ℕ)) where
  -- The loops on the bytes still to come: what they become, and the last block of `ivec`.
  pub encrypt_list : ℕ → List ℕ → List ℕ → List ℕ × List ℕ
  encrypt_list zero iv xs = (xs, iv)
  encrypt_list (suc left) iv xs =
      let c = crypt_block keys des_encrypt (xor_bytes (take 8 xs) iv) in
      let rest = encrypt_list left c (drop 8 xs) in (c ++ rest.0, rest.1)

  pub decrypt_list : ℕ → List ℕ → List ℕ → List ℕ × List ℕ
  decrypt_list zero iv xs = (xs, iv)
  decrypt_list (suc left) iv xs =
      let p = xor_bytes (crypt_block keys des_decrypt (take 8 xs)) iv in
      let rest = decrypt_list left (take 8 xs) (drop 8 xs) in (p ++ rest.0, rest.1)

  decrypt_list-encrypt_list :
      (left : ℕ) (iv xs : List ℕ)
      → 8 * left ≤ length xs
      → IsBytes xs
      → IsBlock iv
      → decrypt_list left iv (encrypt_list left iv xs).0 ≡ (xs, (encrypt_list left iv xs).1)
  unfolding encrypt_list decrypt_list
  decrypt_list-encrypt_list zero iv xs h bytes block = refl
  decrypt_list-encrypt_list (suc left) iv xs h bytes block =
      let p = take 8 xs in
      let first : IsBlock p = take-IsBlock xs (omega arith) bytes in
      let masked = xor_bytes p iv in
      let c = crypt_block keys des_encrypt masked in
      let is_block = crypt_block-IsBlock keys des_encrypt masked in
      let rest = encrypt_list left c (drop 8 xs) in
      let front = take-part c rest.0 8 is_block.eight in
      let behind = drop-part c rest.0 8 is_block.eight in
      let more =
        decrypt_list-encrypt_list left c (drop 8 xs) (omega (arith, length-drop 8 xs))
          (drop-IsBytes xs bytes) is_block in
      let back : xor_bytes (crypt_block keys des_decrypt c) iv ≡ p =
        ap (λ b. xor_bytes b iv)
          (crypt_block_decrypt keys masked (xor_bytes-IsBlock p iv first block))
        ∙ xor_bytes_cancel p iv (first.eight ∙ sym block.eight) in
      rw (front, behind, back, more) (ap (λ b. (b, rest.1)) (take-drop 8 xs))

  cbc_encrypt-list :
      (left at : ℕ) (buf iv : List ℕ)
      → at + 8 * left ≤ length buf
      → length iv ≡ 8
      → let done = encrypt_list left iv (drop at buf) in
        cbc_encrypt keys left at buf iv ≡ some (take at buf ++ done.0, done.1)
  unfolding cbc_encrypt encrypt_list slice
  cbc_encrypt-list zero at buf iv h eight = ap (λ b. some (b, iv)) (sym (take-drop at buf))
  cbc_encrypt-list (suc left) at buf iv h eight =
      let p = take 8 (drop at buf) in
      let x = xor_bytes p iv in
      let c = crypt_block keys des_encrypt x in
      let fits : at + 8 ≤ length buf = omega arith in
      let p_eight : length p ≡ 8 = omega (arith, length-take 8 (drop at buf), length-drop at buf) in
      let x_eight : length x ≡ 8 = length-xor_bytes p iv (p_eight ∙ sym eight) ∙ p_eight in
      let c_eight = (crypt_block-IsBlock keys des_encrypt x).eight in
      rw
        (
          load_block_lem buf at 8 fits,
          load_whole iv eight,
          store_block_lem buf at x (omega (arith, x_eight)),
          crypt_stored keys des_encrypt at x buf x_eight fits,
          load_stored at c buf c_eight fits,
          store_whole iv c eight c_eight,
        )
        (cbc_encrypt-list left (at + 8) (splice at c buf) c
            (omega (arith, length-splice at c buf, c_eight)) c_eight
          ∙ (ap₂ (λ f r. some (f ++ (encrypt_list left c r).0, (encrypt_list left c r).1))
                (stored_front at c buf c_eight fits) (stored_rest at c buf c_eight fits)
              ∙ ap (λ b. some (b, (encrypt_list left c (drop 8 (drop at buf))).1))
                  (append_assoc (take at buf) c (encrypt_list left c (drop 8 (drop at buf))).0)))

  cbc_decrypt-list :
      (left at : ℕ) (buf iv : List ℕ)
      → at + 8 * left ≤ length buf
      → length iv ≡ 8
      → let done = decrypt_list left iv (drop at buf) in
        cbc_decrypt keys left at buf iv ≡ some (take at buf ++ done.0, done.1)
  unfolding cbc_decrypt decrypt_list slice
  cbc_decrypt-list zero at buf iv h eight = ap (λ b. some (b, iv)) (sym (take-drop at buf))
  cbc_decrypt-list (suc left) at buf iv h eight =
      let c = take 8 (drop at buf) in
      let d = crypt_block keys des_decrypt c in
      let p = xor_bytes d iv in
      let fits : at + 8 ≤ length buf = omega arith in
      let c_eight : length c ≡ 8 = omega (arith, length-take 8 (drop at buf), length-drop at buf) in
      let d_eight = (crypt_block-IsBlock keys des_decrypt c).eight in
      let p_eight : length p ≡ 8 = length-xor_bytes d iv (d_eight ∙ sym eight) ∙ d_eight in
      rw
        (
          load_block_lem buf at 8 fits,
          des_crypt-splice keys des_decrypt at buf fits,
          load_stored at d buf d_eight fits,
          load_whole iv eight,
          store_block_lem (splice at d buf) at p
              (omega (arith, length-splice at d buf, d_eight, p_eight)),
          splice-splice at d buf (omega (arith, d_eight)) p (p_eight ∙ sym d_eight),
          store_whole iv c eight c_eight,
        )
        (cbc_decrypt-list left (at + 8) (splice at p buf) c
            (omega (arith, length-splice at p buf, p_eight)) c_eight
          ∙ (ap₂ (λ f r. some (f ++ (decrypt_list left c r).0, (decrypt_list left c r).1))
                (stored_front at p buf p_eight fits) (stored_rest at p buf p_eight fits)
              ∙ ap (λ b. some (b, (decrypt_list left c (drop 8 (drop at buf))).1))
                  (append_assoc (take at buf) p (decrypt_list left c (drop 8 (drop at buf))).0)))

  length-encrypt_list :
      (left : ℕ) (iv xs : List ℕ)
      → 8 * left ≤ length xs
      → length (encrypt_list left iv xs).0 ≡ length xs
  unfolding encrypt_list
  length-encrypt_list zero iv xs h = refl
  length-encrypt_list (suc left) iv xs h =
      let c = crypt_block keys des_encrypt (xor_bytes (take 8 xs) iv) in
      omega (
        arith,
        length-append c (encrypt_list left c (drop 8 xs)).0,
        (crypt_block-IsBlock keys des_encrypt (xor_bytes (take 8 xs) iv)).eight,
        length-encrypt_list left c (drop 8 xs),
        length-drop 8 xs,
      )

-- With a key of eight bytes, an `ivec` of eight bytes and a buffer of bytes with room for `len`
-- rounded up to whole blocks, `cbc_crypt` in a mode for encryption followed by `cbc_crypt` with the
-- first `ivec` in one for decryption runs without an access out of range and gives the buffer back;
-- both leave the same `ivec`, and what each returns depends on its mode alone.
pub cbc_crypt_decrypt :
    (key buf iv : List ℕ) (len mode mode' : ℕ)
    → 8 ≤ length key
    → IsBlock iv
    → IsBytes buf
    → rounded len ≤ length buf
    → bit_and mode des_dirmask ≡ des_encrypt
    → bit_and mode' des_dirmask ≡ des_decrypt
    → (mid iv' : List ℕ) × (cbc_crypt key buf len mode iv ≡ some (device_error mode, mid, iv'))
      × (length mid ≡ length buf)
      × (cbc_crypt key mid len mode' iv ≡ some (device_error mode', buf, iv'))
unfolding cbc_crypt
cbc_crypt_decrypt key buf iv len mode mode' long block bytes room up down =
    let (keys, sets) = des_setkey_lem key long in
    let left = rounded len / 8 in
    let done = encrypt_list keys left iv buf in
    let same = length-encrypt_list keys left iv buf (omega arith) in
    (
      done.0,
      done.1,
      rw (sets, up, cbc_encrypt-list keys left 0 buf iv (omega arith) block.eight) refl,
      same,
      rw (sets, down, cbc_decrypt-list keys left 0 done.0 iv (omega (arith, same)) block.eight)
          (ap (λ r. some (device_error mode', r.0, r.1))
            (decrypt_list-encrypt_list keys left iv buf (omega arith) bytes block)),
    )
