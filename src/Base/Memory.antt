-- ===== src/Base/Memory.antt =====
-- Blocks of memory as lists, and `memcpy` out of one and into one. An access out of range is `none`.
use Prim.Native.Nat.{ℕ, ◌+◌, ◌-◌, ◌≤◌, ◌<◌}
use mathlib.Core.Path.{◌≡◌}
use mathlib.Core.List.{List, ◌++◌}
use mathlib.Core.Option.{Option, none, some, some-injective}
use native.Mathlib.Omega.{arith}
use leo_net.Base.Tests.{Bool-cases, leb→le}
use mathlib.Core.Logic.{inl, inr}
use leo_net.Base.Tests.{ltb, leb, if◌then◌else◌}
use leo_net.Base.Lists.{length, get_or, set, take, drop, length-append, length-take, length-drop}
use leo_net.Base.Lists.{take-part, drop-part, drop-eq-nil}
use mathlib.Core.Path.{◌∙◌, ap, ap₂, sym}
use mathlib.Core.List.{append_assoc, append-nil}
use leo_net.Base.Lists.{get_or-take, get_or-drop, get_or-append}

module _ {A : Type 0} where
  -- the `n` cells from `off` on
  unfoldable pub slice : ℕ → ℕ → List A → List A
  slice off n m = take n (drop off m)

  -- `m` with `src` over the cells from `off` on
  unfoldable pub splice : ℕ → List A → List A → List A
  splice off src m = take off m ++ (src ++ drop (off + length src) m)

  unfoldable pub load_block : List A → ℕ → ℕ → Option (List A)
  load_block m off n = if leb (off + n) (length m) then some (slice off n m) else none

  unfoldable pub store_block : List A → ℕ → List A → Option (List A)
  store_block m off src =
      if leb (off + length src) (length m) then some (splice off src m) else none

  -- One cell, checked.
  unfoldable pub store_elem : List A → ℕ → A → Option (List A)
  store_elem m i x = if ltb i (length m) then some (set m i x) else none

  pub store_elem_lem :
      (m : List A) (i : ℕ) (x : A) → i < length m → store_elem m i x ≡ some (set m i x)
  unfolding store_elem
  store_elem_lem m i x h = ground arith

  pub store_elem-eq-none : (m : List A) (i : ℕ) (x : A) → length m ≤ i → store_elem m i x ≡ none
  unfolding store_elem
  store_elem-eq-none m i x h = ground arith

  pub length-slice : (off n : ℕ) (m : List A) → off + n ≤ length m → length (slice off n m) ≡ n
  unfolding slice
  length-slice off n m h = omega (arith, length-take n (drop off m), length-drop off m)

  pub get_or-slice :
      (off n : ℕ) (m : List A) (i : ℕ) (d : A)
      → get_or (slice off n m) i d ≡ (if ltb i n then get_or m (off + i) d else d)
  unfolding slice
  get_or-slice off n m i d =
      ground (arith, get_or-take n (drop off m) i d, get_or-drop off m i (off + i) d)

  pub length-splice :
      (off : ℕ) (src m : List A)
      → off + length src ≤ length m
      → length (splice off src m) ≡ length m
  unfolding splice
  length-splice off src m h = omega (
    arith,
    length-append (take off m) (src ++ drop (off + length src) m),
    length-append src (drop (off + length src) m),
    length-take off m,
    length-drop (off + length src) m,
  )

  pub get_or-splice :
      (off : ℕ) (src m : List A) (i : ℕ) (d : A)
      → off + length src ≤ length m
      → get_or (splice off src m) i d ≡ (
          if ltb i off
          then get_or m i d
          else if ltb i (off + length src)
          then get_or src (i - off) d
          else get_or m i d)
  unfolding splice
  get_or-splice off src m i d h = ground (
    arith,
    get_or-append (take off m) (src ++ drop (off + length src) m) i d,
    get_or-append src (drop (off + length src) m) (i - off) d,
    get_or-take off m i d,
    get_or-drop (off + length src) m (i - off - length src) i d,
    length-take off m,
  )

  pub load_block_lem :
      (m : List A) (off n : ℕ) → off + n ≤ length m → load_block m off n ≡ some (slice off n m)
  unfolding load_block
  load_block_lem m off n h = ground arith

  pub store_block_lem :
      (m : List A) (off : ℕ) (src : List A)
      → off + length src ≤ length m
      → store_block m off src ≡ some (splice off src m)
  unfolding store_block
  store_block_lem m off src h = ground arith

  pub store_block-eq-none :
      (m : List A) (off : ℕ) (src : List A)
      → length m < off + length src
      → store_block m off src ≡ none
  unfolding store_block
  store_block-eq-none m off src h = ground arith

  -- What lies before, from and behind a block that was stored.
  module _ (off : ℕ) (src m : List A) (fits : off + length src ≤ length m) where
    length-before : length (take off m) ≡ off
    length-before = omega (arith, length-take off m)

    pub take-splice : take off (splice off src m) ≡ take off m
    unfolding splice
    take-splice = take-part (take off m) (src ++ drop (off + length src) m) off length-before

    pub drop-splice : drop off (splice off src m) ≡ src ++ drop (off + length src) m
    unfolding splice
    drop-splice = drop-part (take off m) (src ++ drop (off + length src) m) off length-before

    pub take-splice_end : take (off + length src) (splice off src m) ≡ take off m ++ src
    unfolding splice
    take-splice_end =
        ap (take (off + length src))
          (sym (append_assoc (take off m) src (drop (off + length src) m)))
        ∙ take-part (take off m ++ src) (drop (off + length src) m) (off + length src)
            (omega (arith, length-append (take off m) src, length-before))

    pub drop-splice_end : drop (off + length src) (splice off src m) ≡ drop (off + length src) m
    unfolding splice
    drop-splice_end =
        ap (drop (off + length src))
          (sym (append_assoc (take off m) src (drop (off + length src) m)))
        ∙ drop-part (take off m ++ src) (drop (off + length src) m) (off + length src)
            (omega (arith, length-append (take off m) src, length-before))

    -- Stored again at the same place.
    pub splice-splice :
        (new : List A)
        → length new ≡ length src
        → splice off new (splice off src m) ≡ splice off new m
    unfolding splice
    splice-splice new e =
        let behind : drop (off + length new) (splice off src m) ≡ drop (off + length new) m =
          ap (λ k. drop (off + k) (splice off src m)) e
          ∙ (drop-splice_end ∙ ap (λ k. drop (off + k) m) (sym e)) in
        ap₂ (λ front rest. front ++ (new ++ rest)) take-splice behind

  -- A store over the whole of a block.
  pub splice_all : (src m : List A) → length src ≡ length m → splice 0 src m ≡ src
  unfolding splice
  splice_all src m e =
      ap (λ t. src ++ t) (drop-eq-nil (0 + length src) m (omega arith)) ∙ append-nil src

  -- A store that succeeds keeps the length.
  pub length-store_block :
      (m : List A) (off : ℕ) (src out : List A)
      → store_block m off src ≡ some out
      → length out ≡ length m
  unfolding store_block
  length-store_block m off src out e = elim (Bool-cases (leb (off + length src) (length m))) [
    | inl fits ↦
        let stored : some (splice off src m) ≡ some out = rw fits at e in
        ap length (sym (some-injective _ _ stored)) ∙ length-splice off src m (leb→le _ _ fits)
    | inr over ↦ absurd (ground (arith, e))
  ]
