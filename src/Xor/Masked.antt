-- ===== src/Xor/Masked.antt =====
-- A buffer of which one stretch is masked, as src/leo_dof_crypto.c leaves it.
use leo_net.Base.{ℕ, ◌^◌, ◌≤◌, ◌<◌, ◌≡◌, ◌∙◌, refl, ap, bit_xor, ◌⊎◌, List, arith}
use leo_net.Base.Lists.{length, get_or, get_or_ext}
use leo_net.Base.Bits.{bit_xor-lt, bit_xor_cancel}
use leo_net.Base.Endian.{IsBytes}

-- `out` is `buf` with the bytes from `lo` to `hi` masked, each by the byte that `f` names.
pub record IsMasked (f : ℕ → ℕ) (lo hi : ℕ) (buf out : List ℕ) : Type 0 where
  pub same_length : length out ≡ length buf
  pub inside : (p : ℕ) → lo ≤ p → p < hi → get_or out p 0 ≡ bit_xor (get_or buf p 0) (f p)
  pub outside : (p : ℕ) → (p < lo) ⊎ (hi ≤ p) → get_or out p 0 ≡ get_or buf p 0

pub IsMasked-nothing : (f : ℕ → ℕ) (lo : ℕ) (buf : List ℕ) → IsMasked f lo lo buf buf
IsMasked-nothing f lo buf = record {
  same_length = refl;
  inside = λ p a b. absurd (omega arith);
  outside = λ p h. refl;
}

-- Two stretches, one after the other.
pub IsMasked-join :
    {f : ℕ → ℕ} {lo mid hi : ℕ} {buf half out : List ℕ}
    → lo ≤ mid
    → mid ≤ hi
    → IsMasked f lo mid buf half
    → IsMasked f mid hi half out
    → IsMasked f lo hi buf out
IsMasked-join {f} {lo} {mid} {hi} {buf} {half} {out} a b l r = record {
  same_length = r.same_length ∙ l.same_length;
  inside = λ p h k. ground (arith, l.inside p, l.outside p, r.inside p, r.outside p);
  outside = λ p h. ground (arith, l.outside p, r.outside p);
}

pub masked-IsBytes :
    {f : ℕ → ℕ} {lo hi : ℕ} {buf out : List ℕ}
    → ((p : ℕ) → f p < 2 ^ 8)
    → IsBytes buf
    → IsMasked f lo hi buf out
    → IsBytes out
masked-IsBytes {f} {lo} {hi} {buf} small b m p =
    ground (arith, m.inside p, m.outside p, b p, bit_xor-lt 8 (get_or buf p 0) (f p), small p)

-- Only the masks inside the stretch matter.
pub IsMasked-by :
    {f g : ℕ → ℕ} {lo hi : ℕ} {buf out : List ℕ}
    → ((p : ℕ) → lo ≤ p → p < hi → f p ≡ g p)
    → IsMasked f lo hi buf out
    → IsMasked g lo hi buf out
IsMasked-by {f} {g} {lo} {hi} {buf} same m = record {
  same_length = m.same_length;
  inside = λ p a b. m.inside p a b ∙ ap (bit_xor (get_or buf p 0)) (same p a b);
  outside = m.outside;
}

-- Masking again with the same bytes gives the buffer back.
pub masked_twice :
    {f : ℕ → ℕ} {lo hi : ℕ} {buf mid out : List ℕ}
    → IsMasked f lo hi buf mid
    → IsMasked f lo hi mid out
    → out ≡ buf
masked_twice {f} {lo} {hi} {buf} {mid} {out} l r =
    get_or_ext 0 out buf (r.same_length ∙ l.same_length) λ p h. ground (
      arith,
      l.inside p,
      l.outside p,
      r.inside p,
      r.outside p,
      bit_xor_cancel (get_or buf p 0) (f p),
    )
