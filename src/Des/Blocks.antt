-- ===== src/Des/Blocks.antt =====
-- A block of eight bytes in the middle of a buffer, for the modes of DES (src/leo_des_crypto.c).
use leo_net.Base.{
  zero, suc, ap₂, ℕ, ◌+◌, ◌≤◌, ◌≡◌, ◌∙◌, refl, sym, ap, some, List, [], ◌∷◌, ◌++◌, arith,
}
use leo_net.Base.Lists.{length, take, drop, drop-add, get_or-take, get_or-drop, length-take}
use leo_net.Base.Lists.{take-part, take-length}
use leo_net.Base.Memory.{
  load_block, store_block, length-splice, drop-splice, splice-splice, splice_all, slice, splice,
  load_block_lem, store_block_lem, take-splice_end, drop-splice_end,
}
use leo_net.Base.Bits.{bit_xor-lt, bit_xor_cancel}
use leo_net.Base.Endian.{IsBytes}
use leo_net.Des.{crypt_block, des_crypt, xor_bytes}
use leo_net.Des.Inverse.{IsBlock}
use leo_net.Des.Crypt.{crypt_block-IsBlock}

-- A block `c` stored at `at`: what lies before its end, and what behind.
module _ (at : ℕ) (c buf : List ℕ) (eight : length c ≡ 8) (fits : at + 8 ≤ length buf) where
  room : at + length c ≤ length buf
  room = omega (arith, eight)

  pub stored_front : take (at + 8) (splice at c buf) ≡ take at buf ++ c
  stored_front =
      ap (λ k. take (at + k) (splice at c buf)) (sym eight) ∙ take-splice_end at c buf room

  pub stored_rest : drop (at + 8) (splice at c buf) ≡ drop 8 (drop at buf)
  stored_rest =
      ap (λ k. drop (at + k) (splice at c buf)) (sym eight)
      ∙ (drop-splice_end at c buf room ∙ (ap (λ k. drop (at + k) buf) eight ∙ drop-add at 8 buf))

-- What a call of `des_crypt` leaves.
pub des_crypt-splice :
    (keys : List (ℕ × ℕ)) (flag at : ℕ) (buf : List ℕ)
    → at + 8 ≤ length buf
    → des_crypt keys buf at flag
      ≡ some (splice at (crypt_block keys flag (take 8 (drop at buf))) buf)
unfolding des_crypt slice
des_crypt-splice keys flag at buf fits =
    let s = take 8 (drop at buf) in
    rw (load_block_lem buf at 8 fits) (
      store_block_lem buf at (crypt_block keys flag s)
        (omega (arith, (crypt_block-IsBlock keys flag s).eight)))

module _ (at : ℕ) (c buf : List ℕ) (eight : length c ≡ 8) (fits : at + 8 ≤ length buf) where
  -- The stored block itself.
  stored_block : take 8 (drop at (splice at c buf)) ≡ c
  stored_block =
      let room : at + length c ≤ length buf = omega (arith, eight) in
      ap (take 8) (drop-splice at c buf room) ∙ take-part c (drop (at + length c) buf) 8 eight

  pub load_stored : load_block (splice at c buf) at 8 ≡ some c
  unfolding slice
  load_stored =
      load_block_lem (splice at c buf) at 8 (omega (arith, length-splice at c buf, eight))
      ∙ ap some stored_block

-- A call of `des_crypt` on a block that was just stored.
pub crypt_stored :
    (keys : List (ℕ × ℕ)) (flag at : ℕ) (x buf : List ℕ)
    → length x ≡ 8
    → at + 8 ≤ length buf
    → des_crypt keys (splice at x buf) at flag ≡ some (splice at (crypt_block keys flag x) buf)
crypt_stored keys flag at x buf eight fits =
    let room : at + length x ≤ length buf = omega (arith, eight) in
    des_crypt-splice keys flag at (splice at x buf) (omega (arith, length-splice at x buf, eight))
    ∙ (ap (λ s. some (splice at (crypt_block keys flag s) (splice at x buf)))
          (stored_block at x buf eight fits)
        ∙ ap some (
            splice-splice at x buf room (crypt_block keys flag x)
              ((crypt_block-IsBlock keys flag x).eight ∙ sym eight)))

-- A block loaded whole, and another stored over it.
pub load_whole : (iv : List ℕ) → length iv ≡ 8 → load_block iv 0 8 ≡ some iv
unfolding slice
load_whole iv eight =
    load_block_lem iv 0 8 (omega (arith, eight))
    ∙ ap some (ap (λ k. take k iv) (sym eight) ∙ take-length iv)

pub store_whole : (iv c : List ℕ) → length iv ≡ 8 → length c ≡ 8 → store_block iv 0 c ≡ some c
store_whole iv c eight new =
    let same : length c ≡ length iv = new ∙ sym eight in
    store_block_lem iv 0 c (omega (arith, same)) ∙ ap some (splice_all c iv same)

-- The first block of a list, and what is behind it.
pub take-IsBlock : (xs : List ℕ) → 8 ≤ length xs → IsBytes xs → IsBlock (take 8 xs)
take-IsBlock xs long bytes = record {
  eight = omega (arith, length-take 8 xs);
  bytes = λ p. ground (arith, get_or-take 8 xs p 0, bytes p);
}

pub drop-IsBytes : (xs : List ℕ) → IsBytes xs → IsBytes (drop 8 xs)
drop-IsBytes xs bytes p = ground (arith, get_or-drop 8 xs p (8 + p) 0 refl, bytes (8 + p))

pub length-xor_bytes :
    (xs ys : List ℕ) → length xs ≡ length ys → length (xor_bytes xs ys) ≡ length xs
unfolding xor_bytes
length-xor_bytes [] ys e = refl
length-xor_bytes (x ∷ xs) [] e = absurd (omega arith)
length-xor_bytes (x ∷ xs) (y ∷ ys) e = omega (arith, length-xor_bytes xs ys (omega arith))

xor_bytes-IsBytes : (xs ys : List ℕ) → IsBytes xs → IsBytes ys → IsBytes (xor_bytes xs ys)
unfolding xor_bytes
xor_bytes-IsBytes [] ys hx hy p = omega arith
xor_bytes-IsBytes (x ∷ xs) [] hx hy p = omega arith
xor_bytes-IsBytes (x ∷ xs) (y ∷ ys) hx hy zero = bit_xor-lt 8 x y (hx 0) (hy 0)
xor_bytes-IsBytes (x ∷ xs) (y ∷ ys) hx hy (suc p) =
    xor_bytes-IsBytes xs ys (λ p. hx (suc p)) (λ p. hy (suc p)) p

pub xor_bytes-IsBlock : (xs ys : List ℕ) → IsBlock xs → IsBlock ys → IsBlock (xor_bytes xs ys)
xor_bytes-IsBlock xs ys bx by = record {
  eight = length-xor_bytes xs ys (bx.eight ∙ sym by.eight) ∙ bx.eight;
  bytes = xor_bytes-IsBytes xs ys bx.bytes by.bytes;
}

-- Masking twice.
pub xor_bytes_cancel :
    (xs ys : List ℕ) → length xs ≡ length ys → xor_bytes (xor_bytes xs ys) ys ≡ xs
unfolding xor_bytes
xor_bytes_cancel [] ys e = refl
xor_bytes_cancel (x ∷ xs) [] e = absurd (omega arith)
xor_bytes_cancel (x ∷ xs) (y ∷ ys) e =
    ap₂ ◌∷◌ (bit_xor_cancel x y) (xor_bytes_cancel xs ys (omega arith))
