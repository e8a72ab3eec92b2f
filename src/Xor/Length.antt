-- ===== src/Xor/Length.antt =====
-- `xor_crypt` (src/leo_dof_crypto.c) stays inside the buffer only if that has the bytes asked for, and never changes the buffer's length, whatever the key.
use leo_net.Base.{
  ℕ, zero, suc, ◌+◌, ◌-◌, ◌*◌, ◌/◌, ◌%◌, ◌≤◌, ◌<◌, leb, leb→le, arith, ◌≡◌, ◌∙◌, ap, Bool-cases,
  inl, inr, bit_xor, some, List, [], ◌∷◌, ltb, if◌then◌else◌, some_bind, some-injective, sym,
}
use leo_net.Base.Lists.{length, get_elem?, get_elem?-eq-none}
use leo_net.Base.Memory.{load_block, store_block, length-store_block}
use leo_net.Base.Endian.{load32, store32, bytes4}
use leo_net.Xor.{xor_sections, xor_remains, xor_crypt, xor_decrypt}

module _ (key : List ℕ) where
  length-xor_sections :
      (left i j : ℕ) (buf out : List ℕ)
      → xor_sections key left i j buf ≡ some out
      → length out ≡ length buf
  unfolding xor_sections store32
  length-xor_sections zero i j buf out e = ap length (some-injective _ _ (sym e))
  length-xor_sections (suc left) i j buf out e =
      let (b, e₁, f₁) = some_bind (load32 buf (4 * i)) _ out e in
      let (k, e₂, f₂) = some_bind (load32 key (4 * j)) _ out f₁ in
      let (buf', e₃, f₃) = some_bind (store32 buf (4 * i) (bit_xor b k)) _ out f₂ in
      length-xor_sections left (i + 1) ((j + 1) % 4) buf' out f₃
      ∙ length-store_block buf (4 * i) (bytes4 (bit_xor b k)) buf' e₃

  length-xor_remains :
      (left t k : ℕ) (buf out : List ℕ)
      → xor_remains key left t k buf ≡ some out
      → length out ≡ length buf
  unfolding xor_remains
  length-xor_remains zero t k buf out e = ap length (some-injective _ _ (sym e))
  length-xor_remains (suc left) t k buf out e =
      let (b, e₁, f₁) = some_bind (get_elem? buf t) _ out e in
      let (c, e₂, f₂) = some_bind (get_elem? key k) _ out f₁ in
      let (buf', e₃, f₃) = some_bind (store_block buf t (bit_xor b c ∷ [])) _ out f₂ in
      length-xor_remains left (t + 1) (k + 1) buf' out f₃
      ∙ length-store_block buf t (bit_xor b c ∷ []) buf' e₃

get_elem?-inside : (m : List ℕ) (i x : ℕ) → get_elem? m i ≡ some x → i < length m
get_elem?-inside m i x e = elim (Bool-cases (ltb i (length m))) [
  | inl fits ↦ ground arith
  | inr beyond ↦ absurd (ground (arith, get_elem?-eq-none m i (ground arith), e))
]

load32-inside : (m : List ℕ) (off x : ℕ) → load32 m off ≡ some x → off + 4 ≤ length m
unfolding load32 load_block
load32-inside m off x e = elim (Bool-cases (leb (off + 4) (length m))) [
  | inl fits ↦ leb→le _ _ fits
  | inr beyond ↦ absurd (ground (arith, rw beyond at e))
]

module _ (key : List ℕ) where
  xor_sections-inside :
      (left i j : ℕ) (buf out : List ℕ)
      → xor_sections key left i j buf ≡ some out
      → 0 < left
      → 4 * (i + left) ≤ length buf
  unfolding xor_sections store32
  xor_sections-inside zero i j buf out e more = absurd (omega (arith, more))
  xor_sections-inside (suc left) i j buf out e more =
      let (b, e₁, f₁) = some_bind (load32 buf (4 * i)) _ out e in
      let (k, e₂, f₂) = some_bind (load32 key (4 * j)) _ out f₁ in
      let (buf', e₃, f₃) = some_bind (store32 buf (4 * i) (bit_xor b k)) _ out f₂ in
      let here = load32-inside buf (4 * i) b e₁ in
      let same = length-store_block buf (4 * i) (bytes4 (bit_xor b k)) buf' e₃ in
      let rest = xor_sections-inside left (i + 1) ((j + 1) % 4) buf' out f₃ in
      ground (arith, here, same, rest)

  xor_remains-inside :
      (left t k : ℕ) (buf out : List ℕ)
      → xor_remains key left t k buf ≡ some out
      → 0 < left
      → t + left ≤ length buf
  unfolding xor_remains
  xor_remains-inside zero t k buf out e more = absurd (omega (arith, more))
  xor_remains-inside (suc left) t k buf out e more =
      let (b, e₁, f₁) = some_bind (get_elem? buf t) _ out e in
      let (c, e₂, f₂) = some_bind (get_elem? key k) _ out f₁ in
      let (buf', e₃, f₃) = some_bind (store_block buf t (bit_xor b c ∷ [])) _ out f₂ in
      let here = get_elem?-inside buf t b e₁ in
      let same = length-store_block buf t (bit_xor b c ∷ []) buf' e₃ in
      let rest = xor_remains-inside left (t + 1) (k + 1) buf' out f₃ in
      ground (arith, here, same, rest)

pub length-xor_crypt :
    (buf : List ℕ) (len : ℕ) (key : List ℕ) (r : ℕ × List ℕ)
    → xor_crypt buf len key ≡ some r
    → length r.1 ≡ length buf
unfolding xor_crypt
length-xor_crypt buf len key r e =
    let (buf', e₁, f₁) = some_bind (xor_sections key (len / 4) 0 0 buf) _ r e in
    let (buf'', e₂, f₂) =
      some_bind
        (if ltb 0 (len % 4) then xor_remains key (len % 4) (len - len % 4) 0 buf' else some buf') _
        r f₁ in
    let last : length buf'' ≡ length buf' = elim (Bool-cases (ltb 0 (len % 4))) [
      | inl more ↦ length-xor_remains key (len % 4) (len - len % 4) 0 buf' buf'' (rw more at e₂)
      | inr nothing ↦ ap length (some-injective _ _ (sym (rw nothing at e₂)))
    ] in
    ap (λ x. length x.1) (some-injective _ _ (sym f₂))
    ∙ (last ∙ length-xor_sections key (len / 4) 0 0 buf buf' e₁)

pub length-xor_decrypt :
    (buf : List ℕ) (len : ℕ) (key : List ℕ) (r : ℕ × List ℕ)
    → xor_decrypt buf len key ≡ some r
    → length r.1 ≡ length buf
unfolding xor_decrypt
length-xor_decrypt = length-xor_crypt

-- What goes through had the bytes asked for.
pub xor_decrypt-inside :
    (buf : List ℕ) (len : ℕ) (key : List ℕ) (r : ℕ × List ℕ)
    → xor_decrypt buf len key ≡ some r
    → len ≤ length buf
unfolding xor_decrypt xor_crypt
xor_decrypt-inside buf len key r e =
    let (buf', e₁, f₁) = some_bind (xor_sections key (len / 4) 0 0 buf) _ r e in
    let (buf'', e₂, f₂) =
      some_bind
        (if ltb 0 (len % 4) then xor_remains key (len % 4) (len - len % 4) 0 buf' else some buf') _
        r f₁ in
    let same = length-xor_sections key (len / 4) 0 0 buf buf' e₁ in
    let sections = xor_sections-inside key (len / 4) 0 0 buf buf' e₁ in
    elim (Bool-cases (ltb 0 (len % 4))) [
      | inl more ↦
          let remains =
            xor_remains-inside key (len % 4) (len - len % 4) 0 buf' buf'' (rw more at e₂) in
          ground (arith, same, remains, more)
      | inr nothing ↦ ground (arith, sections, nothing)
    ]
