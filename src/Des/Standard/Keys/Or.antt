-- ===== src/Des/Standard/Keys/Or.antt =====
-- The bits that `des_setkey` (src/leo_des_crypto.c) takes from a byte of the key are or-ed into the
-- two halves that the bytes before it have left.
use leo_net.Base.{
  ℕ, zero, suc, ◌+◌, ◌-◌, ◌*◌, ◌/◌, ◌≡◌, ◌∙◌, sym, ap, ap₂, Bool, true, false, bit_and, bit_or,
  shl32, u8, arith, leb, ◌==◌, if◌then◌else◌,
}
use Prim.Native.Nat.{bit_or-bitwise}
use leo_net.Base.Lists.{get_or}
use leo_net.Base.Bits.{bit_or_halves, bit_or_none, halving}
use leo_net.Des.Schedule.{Halves, choose_bits, pc1, c_base}

bit_or_half : (a b : ℕ) → bit_or a b / 2 ≡ bit_or (a / 2) (b / 2)
bit_or_half a b = omega (arith, bit_or_halves a b)

bit_or_assoc : (a b c : ℕ) → bit_or (bit_or a b) c ≡ bit_or a (bit_or b c)
bit_or_assoc =
    halving (λ a b. (c : ℕ) → bit_or (bit_or a b) c ≡ bit_or a (bit_or b c))
      (λ b c. ap (λ t. bit_or t c) (bit_or-bitwise 0 b) ∙ sym (bit_or-bitwise 0 (bit_or b c)))
      λ a b ih c. ground (
        arith,
        bit_or_halves (bit_or (suc a) b) c,
        bit_or_halves (suc a) (bit_or b c),
        bit_or_halves (suc a) b,
        bit_or_halves b c,
        bit_or_half (suc a) b,
        bit_or_half b c,
        ih (c / 2),
      )

abbrev pub halves : ℕ → ℕ → Halves
halves c d = record { c = c; d = d }

unfoldable pub joined : Halves → Halves → Halves
joined h g = halves (bit_or h.c g.c) (bit_or h.d g.d)

joined_assoc : (h g k : Halves) → joined (joined h g) k ≡ joined h (joined g k)
unfolding joined
joined_assoc h g k = ap₂ halves (bit_or_assoc h.c g.c k.c) (bit_or_assoc h.d g.d k.d)

-- One bit, with the outcomes of the two tests.
abbrev put : Bool → Bool → ℕ → Halves → Halves
put off left at h =
    if off
    then h
    else if left
    then record h { c = bit_or h.c (shl32 1 (at - c_base)) }
    else record h { d = bit_or h.d (shl32 1 at) }

put-joined :
    (off left : Bool) (at : ℕ) (h : Halves)
    → put off left at h ≡ joined h (put off left at (halves 0 0))
unfolding joined
put-joined true left at h = ap₂ halves (sym (bit_or_none h.c)) (sym (bit_or_none h.d))
put-joined false true at h =
    ap₂ halves (ap (bit_or h.c) (sym (bit_or-bitwise 0 (shl32 1 (at - c_base)))))
      (sym (bit_or_none h.d))
put-joined false false at h =
    ap₂ halves (sym (bit_or_none h.c)) (ap (bit_or h.d) (sym (bit_or-bitwise 0 (shl32 1 at))))

-- The bits of one byte are or-ed into what is there.
pub choose_bits-joined :
    (j p b : ℕ) (h : Halves) → choose_bits j p b h ≡ joined h (choose_bits j p b (halves 0 0))
unfolding choose_bits
choose_bits-joined zero p b h =
    unfold joined in ap₂ halves (sym (bit_or_none h.c)) (sym (bit_or_none h.d))
choose_bits-joined (suc j) p b h =
    let at = get_or pc1 p 0 in
    let more : Halves → Halves = choose_bits j (p + 1) (u8 (b * 2)) in
    let next : Halves → Halves = put (bit_and b 0x80 == 0) (leb c_base at) at in
    ap more (put-joined (bit_and b 0x80 == 0) (leb c_base at) at h)
    ∙ (choose_bits-joined j (p + 1) (u8 (b * 2)) (joined h (next (halves 0 0)))
        ∙ (joined_assoc h (next (halves 0 0)) (more (halves 0 0))
            ∙ ap (joined h) (sym (choose_bits-joined j (p + 1) (u8 (b * 2)) (next (halves 0 0))))))
