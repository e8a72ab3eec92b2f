-- ===== src/Xor/Loops.antt =====
-- The two loops of `xor_crypt` (src/leo_dof_crypto.c).
use mathlib.Core.Path.{subst}
use leo_net.Base.{
  ℕ, zero, suc, ◌+◌, ◌-◌, ◌*◌, ◌%◌, ◌≤◌, ◌<◌, ◌≡◌, refl, bit_xor, some, List, [], ◌∷◌, arith,
}
use leo_net.Base.Lists.{length, get_or, get_elem?-eq-get_or}
use leo_net.Base.Memory.{splice, store_block_lem, length-splice, get_or-splice}
use leo_net.Base.Endian.{IsBytes, store32, bytes4, word_at, load32_lem, bytes4-xor}
use leo_net.Xor.{xor_sections, xor_remains}
use leo_net.Xor.Masked.{IsMasked, IsMasked-nothing, IsMasked-join, masked-IsBytes}

module _ (key : List ℕ) (key_bytes : IsBytes key) where
  -- The word loop masks byte `p` with byte `p % 16` of the key.
  abbrev pub of_section : ℕ → ℕ
  of_section p = get_or key (p % 16) 0

  module _ (enough : 16 ≤ length key) where
    section_list : List ℕ → ℕ → ℕ → List ℕ
    section_list buf o k =
        bit_xor (get_or buf o 0) (get_or key k 0)
        ∷ bit_xor (get_or buf (o + 1) 0) (get_or key (k + 1) 0)
        ∷ bit_xor (get_or buf (o + 2) 0) (get_or key (k + 2) 0)
        ∷ bit_xor (get_or buf (o + 3) 0) (get_or key (k + 3) 0)
        ∷ []

    length-section_list : (buf : List ℕ) (o k : ℕ) → length (section_list buf o k) ≡ 4
    unfolding section_list
    length-section_list buf o k = refl

    get_or-section_list :
        (buf : List ℕ) (o k r : ℕ)
        → r < 4
        → get_or (section_list buf o k) r 0 ≡ bit_xor (get_or buf (o + r) 0) (get_or key (k + r) 0)
    unfolding section_list
    get_or-section_list buf o k zero h = ground arith
    get_or-section_list buf o k (suc zero) h = refl
    get_or-section_list buf o k (suc (suc zero)) h = refl
    get_or-section_list buf o k (suc (suc (suc zero))) h = refl
    get_or-section_list buf o k (suc (suc (suc (suc r)))) h = absurd (omega arith)

    section_bytes :
        (buf : List ℕ) (o k : ℕ)
        → IsBytes buf
        → bytes4 (bit_xor (word_at buf o) (word_at key k)) ≡ section_list buf o k
    unfolding section_list
    section_bytes buf o k b =
        bytes4-xor (get_or buf o 0) (get_or buf (o + 1) 0) (get_or buf (o + 2) 0)
          (get_or buf (o + 3) 0) (get_or key k 0) (get_or key (k + 1) 0) (get_or key (k + 2) 0)
          (get_or key (k + 3) 0) (b _) (b _) (b _) (b _) (key_bytes _) (key_bytes _) (key_bytes _)
          (key_bytes _)

    section-IsMasked :
        (buf : List ℕ) (i j : ℕ)
        → IsBytes buf
        → 4 * i + 4 ≤ length buf
        → j ≡ i % 4
        → IsMasked of_section
            (4 * i)
            (4 * (i + 1))
            buf
            (splice (4 * i) (section_list buf (4 * i) (4 * j)) buf)
    section-IsMasked buf i j b h e = record {
      same_length =
          length-splice (4 * i) (section_list buf (4 * i) (4 * j)) buf
            (omega (arith, length-section_list buf (4 * i) (4 * j)));
      inside = λ p lo hi. ground (
        arith,
        length-section_list buf (4 * i) (4 * j),
        get_or-splice (4 * i) (section_list buf (4 * i) (4 * j)) buf p 0,
        get_or-section_list buf (4 * i) (4 * j) (p - 4 * i),
      );
      outside = λ p away. ground (
        arith,
        length-section_list buf (4 * i) (4 * j),
        get_or-splice (4 * i) (section_list buf (4 * i) (4 * j)) buf p 0,
      );
    }

    pub sections-IsMasked :
        (left i j hi : ℕ) (buf : List ℕ)
        → IsBytes buf
        → j ≡ i % 4
        → 4 * i + 4 * left ≡ hi
        → hi ≤ length buf
        → (out : List ℕ) × (xor_sections key left i j buf ≡ some out)
          × IsMasked of_section (4 * i) hi buf out
    unfolding xor_sections store32
    sections-IsMasked zero i j hi buf b e d h =
        let same : 4 * i ≡ hi = omega arith in
        (
          buf,
          refl,
          subst (λ t. IsMasked of_section (4 * i) t buf buf) same
              (IsMasked-nothing of_section (4 * i) buf),
        )
    sections-IsMasked (suc left) i j hi buf b e d h =
        let one = section-IsMasked buf i j b (omega arith) e in
        let half : List ℕ = splice (4 * i) (section_list buf (4 * i) (4 * j)) buf in
        let (out, runs, rest) =
          sections-IsMasked left (i + 1) ((j + 1) % 4) hi half
            (masked-IsBytes (λ p. key_bytes (p % 16)) b one) (omega arith) (omega arith)
            (omega (arith, one.same_length)) in
        (
          out,
          rw
              (
                load32_lem buf (4 * i) (omega arith),
                load32_lem key (4 * j) (omega arith),
                section_bytes buf (4 * i) (4 * j) b,
                store_block_lem buf (4 * i) (section_list buf (4 * i) (4 * j))
                    (omega (arith, length-section_list buf (4 * i) (4 * j))),
              )
              runs,
          IsMasked-join (omega arith) (omega arith) one rest,
        )

    -- The byte loop starts again at the first byte of the key.
    abbrev pub of_remain : ℕ → ℕ → ℕ
    of_remain base p = get_or key (p - base) 0

    remain-IsMasked :
        (buf : List ℕ) (base t : ℕ)
        → t < length buf
        → IsMasked
            (of_remain base)
            t
            (t + 1)
            buf
            (splice t (bit_xor (get_or buf t 0) (get_or key (t - base) 0) ∷ []) buf)
    remain-IsMasked buf base t h =
        let x : List ℕ = bit_xor (get_or buf t 0) (get_or key (t - base) 0) ∷ [] in
        record {
          same_length = length-splice t x buf (omega arith);
          inside = λ p lo hi.
              let e : p ≡ t = omega arith in rw e (ground (arith, get_or-splice t x buf t 0));
          outside = λ p away. ground (arith, get_or-splice t x buf p 0);
        }

    pub remains-IsMasked :
        (left base t k hi : ℕ) (buf : List ℕ)
        → base + k ≡ t
        → t + left ≡ hi
        → k + left ≤ 16
        → hi ≤ length buf
        → (out : List ℕ) × (xor_remains key left t k buf ≡ some out)
          × IsMasked (of_remain base) t hi buf out
    unfolding xor_remains
    remains-IsMasked zero base t k hi buf e d f h =
        let same : t ≡ hi = omega arith in
        (
          buf,
          refl,
          subst (λ u. IsMasked (of_remain base) t u buf buf) same
              (IsMasked-nothing (of_remain base) t buf),
        )
    remains-IsMasked (suc left) base t k hi buf e d f h =
        let one = remain-IsMasked buf base t (omega arith) in
        let half : List ℕ =
          splice t (bit_xor (get_or buf t 0) (get_or key (t - base) 0) ∷ []) buf in
        let (out, runs, rest) =
          remains-IsMasked left base (t + 1) (k + 1) hi half (omega arith) (omega arith)
            (omega arith) (omega (arith, one.same_length)) in
        let at : k ≡ t - base = omega arith in
        (
          out,
          rw
              (
                get_elem?-eq-get_or buf t 0 (omega arith),
                at,
                get_elem?-eq-get_or key (t - base) 0 (omega arith),
                store_block_lem buf t (bit_xor (get_or buf t 0) (get_or key (t - base) 0) ∷ [])
                    (omega arith),
              )
              (rw at at runs),
          IsMasked-join (omega arith) (omega arith) one rest,
        )
