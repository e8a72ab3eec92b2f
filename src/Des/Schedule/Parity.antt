-- ===== src/Des/Schedule/Parity.antt =====
-- The parity bits of a DES key (src/leo_des_crypto.c): `des_setkey` does not read the lowest bit of
-- a byte, and `des_setparity` makes the number of ones odd with the highest.
use leo_net.Base.{
  ℕ, zero, suc, ◌+◌, ◌*◌, ◌/◌, ◌%◌, ◌≤◌, ◌<◌, ◌≡◌, ◌∙◌, refl, ap, Bool, true, ◌&&◌, bit_and, some,
  List, [], ◌∷◌, arith, ltb, leb, ◌==◌, if◌then◌else◌, u8, all_indices, test_from,
  all_indices-passes,
}
use leo_net.Base.Lists.{
  length, get_or, take, set, get_or-set, length-set, get_or-take, get_elem?-eq-get_or,
}
use leo_net.Base.Memory.{load_block_lem, slice, store_elem_lem}
use leo_net.Base.Endian.{IsBytes}
use leo_net.Des.Schedule.{
  Halves, choose_bits, choose, des_setkey, set_parity_of, set_parity_from, des_setparity,
  round_keys, nshifts,
}

-- Two bytes whose first `j` bits, from the highest on, are the same.
unfoldable agree : ℕ → ℕ → ℕ → Bool
agree zero b b' = true
agree (suc j) b b' = (bit_and b 0x80 == bit_and b' 0x80) && agree j (u8 (b * 2)) (u8 (b' * 2))

choose_bits-agree :
    (j p b b' : ℕ) (h : Halves) → agree j b b' ≡ true → choose_bits j p b h ≡ choose_bits j p b' h
unfolding choose_bits agree
choose_bits-agree zero p b b' h e = refl
choose_bits-agree (suc j) p b b' h e =
    let same : bit_and b 0x80 ≡ bit_and b' 0x80 = ground (arith, e) in
    let rest : agree j (u8 (b * 2)) (u8 (b' * 2)) ≡ true = ground (arith, e) in
    rw same (choose_bits-agree j (p + 1) (u8 (b * 2)) (u8 (b' * 2)) _ rest)

-- A byte with its lowest bit cleared.
abbrev pub even_of : ℕ → ℕ
even_of b = b / 2 * 2

evens_agree : all_indices (λ b. agree 7 b (even_of b)) 256 ≡ true
unfolding all_indices test_from agree
evens_agree = refl

-- A key with the lowest bit of every byte cleared.
abbrev pub without_parity : List ℕ → List ℕ
without_parity [] = []
without_parity (b ∷ key) = even_of b ∷ without_parity key

choose-without_parity :
    (p : ℕ) (key : List ℕ) (h : Halves)
    → IsBytes key
    → choose p key h ≡ choose p (without_parity key) h
unfolding choose
choose-without_parity p [] h bytes = refl
choose-without_parity p (b ∷ key) h bytes =
    ap (choose (p + 7) key) (
      choose_bits-agree 7 p b (even_of b) h
        (all_indices-passes (λ b. agree 7 b (even_of b)) 256 evens_agree b (bytes 0)))
    ∙ choose-without_parity (p + 7) key (choose_bits 7 p (even_of b) h) (λ p. bytes (suc p))

length-without_parity : (key : List ℕ) → length (without_parity key) ≡ length key
length-without_parity [] = refl
length-without_parity (b ∷ key) = ap suc (length-without_parity key)

take-without_parity :
    (n : ℕ) (key : List ℕ) → take n (without_parity key) ≡ without_parity (take n key)
take-without_parity zero key = refl
take-without_parity (suc n) [] = refl
take-without_parity (suc n) (b ∷ key) = ap (λ k. even_of b ∷ k) (take-without_parity n key)

-- The key words that `des_setkey` makes from a key of at least eight bytes do not depend on the
-- lowest bits of the key's bytes.
pub des_setkey-without_parity :
    (key : List ℕ) → IsBytes key → 8 ≤ length key → des_setkey key ≡ des_setkey (without_parity key)
unfolding des_setkey slice
des_setkey-without_parity key bytes long =
    let short : take 8 (without_parity key) ≡ without_parity (take 8 key) =
      take-without_parity 8 key in
    let bytes' : IsBytes (take 8 key) = λ p. ground (arith, get_or-take 8 key p 0, bytes p) in
    rw
      (
        load_block_lem key 0 8 long,
        load_block_lem (without_parity key) 0 8 (omega (arith, length-without_parity key)),
        short,
      )
      (ap (λ h. some (round_keys nshifts h))
        (choose-without_parity 0 (take 8 key) (record { c = 0; d = 0 }) bytes'))

-- The number of ones of a byte.
unfoldable pub ones : ℕ → ℕ
ones b =
    b % 2 + b / 2 % 2 + b / 4 % 2 + b / 8 % 2 + b / 16 % 2 + b / 32 % 2 + b / 64 % 2 + b / 128 % 2

parities :
    all_indices (λ k. (set_parity_of k % 128 == k % 128) && (ones (set_parity_of k) % 2 == 1)) 256
    ≡ true
unfolding all_indices test_from set_parity_of ones
parities = refl

-- Odd parity, the seven lower bits kept.
abbrev pub IsOdd : ℕ → ℕ → Type 0
IsOdd k k' = (k' % 128 ≡ k % 128) × (ones k' % 2 ≡ 1)

set_parity_of-IsOdd : (k : ℕ) → k < 256 → IsOdd k (set_parity_of k)
set_parity_of-IsOdd k h =
    let checked =
      all_indices-passes
        (λ k. (set_parity_of k % 128 == k % 128) && (ones (set_parity_of k) % 2 == 1)) 256 parities
        k h in
    ground (arith, checked)

set_parity_from_lem :
    (n at : ℕ) (key : List ℕ)
    → at + n ≤ length key
    → (out : List ℕ) × (set_parity_from n at key ≡ some out)
      × (length out ≡ length key)
      × ((p : ℕ)
          → get_or out p 0 ≡ (
              if leb at p && ltb p (at + n)
              then set_parity_of (get_or key p 0)
              else get_or key p 0))
unfolding set_parity_from
set_parity_from_lem zero at key h = (key, refl, refl, λ p. ground arith)
set_parity_from_lem (suc n) at key h =
    let k = get_or key at 0 in
    let (out, runs, same, cells) =
      set_parity_from_lem n (at + 1) (set key at (set_parity_of k))
        (omega (arith, length-set key at (set_parity_of k))) in
    (
      out,
      rw
          (
            get_elem?-eq-get_or key at 0 (omega arith),
            store_elem_lem key at (set_parity_of k) (omega arith),
          )
          runs,
      same ∙ length-set key at (set_parity_of k),
      λ p. ground (arith, cells p, get_or-set key at p (set_parity_of k) 0),
    )

-- On a key of at least eight bytes `des_setparity` stays inside, gives each of the first eight an odd
-- number of ones, keeps their seven lower bits, and changes nothing else.
pub des_setparity_lem :
    (key : List ℕ)
    → 8 ≤ length key
    → IsBytes key
    → (out : List ℕ) × (des_setparity key ≡ some out)
      × (length out ≡ length key)
      × ((p : ℕ) → p < 8 → IsOdd (get_or key p 0) (get_or out p 0))
      × ((p : ℕ) → 8 ≤ p → get_or out p 0 ≡ get_or key p 0)
unfolding des_setparity
des_setparity_lem key long bytes =
    let (out, runs, same, cells) = set_parity_from_lem 8 0 key long in
    (
      out,
      runs,
      same,
      λ p h.
          let e : get_or out p 0 ≡ set_parity_of (get_or key p 0) = ground (arith, cells p) in
          rw e (set_parity_of-IsOdd (get_or key p 0) (bytes p)),
      λ p h. ground (arith, cells p),
    )
