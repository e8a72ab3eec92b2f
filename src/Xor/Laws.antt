-- ===== src/Xor/Laws.antt =====
-- What `xor_crypt` (src/leo_dof_crypto.c) does to each byte.
use leo_net.Base.{
  ℕ, zero, suc, ◌-◌, ◌*◌, ◌/◌, ◌%◌, ◌≤◌, ◌≡◌, ◌∙◌, refl, ap, some, List, ltb, if◌then◌else◌, arith,
}
use leo_net.Base.Lists.{length, get_or}
use leo_net.Base.Endian.{IsBytes}
use leo_net.Xor.{xor_remains, xor_crypt, xor_decrypt}
use leo_net.Xor.Masked.{IsMasked, IsMasked-join, masked-IsBytes, IsMasked-by, masked_twice}
use leo_net.Xor.Loops.{sections-IsMasked, remains-IsMasked}

-- The byte of the key that masks position `p` of `len` bytes: the key goes round over the whole
-- words, and starts again for the bytes behind them.
abbrev pub key_byte : List ℕ → ℕ → ℕ → ℕ
key_byte key len p =
    if ltb p (4 * (len / 4)) then get_or key (p % 16) 0 else get_or key (p - 4 * (len / 4)) 0

-- The test before the byte loop makes no difference.
xor_remains_always :
    (key : List ℕ) (remains t : ℕ) (buf : List ℕ)
    → (if ltb 0 remains then xor_remains key remains t 0 buf else some buf)
      ≡ xor_remains key remains t 0 buf
unfolding xor_remains
xor_remains_always key zero t buf = refl
xor_remains_always key (suc remains) t buf = ground arith

module _ (key : List ℕ) (key_bytes : IsBytes key) (enough : 16 ≤ length key) (buf : List ℕ)
    (buf_bytes : IsBytes buf) (len : ℕ) (fits : len ≤ length buf) where
  -- With a key of sixteen bytes and a buffer of `len`, `xor_crypt` stays inside both, returns true
  -- and masks exactly the first `len` bytes of the buffer.
  pub xor_crypt-IsMasked :
      (out : List ℕ) × (xor_crypt buf len key ≡ some (1, out))
      × IsMasked (key_byte key len) 0 len buf out
  unfolding xor_crypt
  xor_crypt-IsMasked =
      let (half, runs, first) =
        sections-IsMasked key key_bytes enough (len / 4) 0 0 (len - len % 4) buf buf_bytes refl
          (omega arith) (omega arith) in
      let (out, runs', second) =
        remains-IsMasked key key_bytes enough (len % 4) (4 * (len / 4)) (len - len % 4) 0 len half
          (omega arith) (omega arith) (omega arith) (omega (arith, first.same_length)) in
      (
        out,
        rw (runs, xor_remains_always key (len % 4) (len - len % 4) half, runs') refl,
        IsMasked-join (omega arith) (omega arith) (IsMasked-by (λ p a b. ground arith) first)
            (IsMasked-by (λ p a b. ground arith) second),
      )

-- Decrypting what `xor_crypt` left gives the buffer back.
pub xor_decrypt-xor_crypt :
    (key buf : List ℕ) (len : ℕ)
    → IsBytes key
    → 16 ≤ length key
    → IsBytes buf
    → len ≤ length buf
    → (mid : List ℕ) × (xor_crypt buf len key ≡ some (1, mid))
      × (xor_decrypt mid len key ≡ some (1, buf))
unfolding xor_decrypt
xor_decrypt-xor_crypt key buf len key_bytes enough buf_bytes fits =
    let (mid, runs, there) = xor_crypt-IsMasked key key_bytes enough buf buf_bytes len fits in
    let mid_bytes =
      masked-IsBytes (λ p. ground (arith, key_bytes (p % 16), key_bytes (p - 4 * (len / 4))))
        buf_bytes there in
    let (out, runs', back) =
      xor_crypt-IsMasked key key_bytes enough mid mid_bytes len
        (omega (arith, there.same_length)) in
    (mid, runs, runs' ∙ ap (λ b. some (1, b)) (masked_twice there back))
