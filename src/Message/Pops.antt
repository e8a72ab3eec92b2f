-- ===== src/Message/Pops.antt =====
-- What a sequence of `pop_ptr` or of `pop_ref` calls (src/leo_net_message.h) hands out.
use leo_net.Base.{
  ℕ, ◌+◌, ◌^◌, ◌≤◌, ◌<◌, ◌≡◌, refl, ◌⊎◌, Option, ◌>>=◌, suc, ltb, add32, u16, none, some, List, [],
  ◌∷◌, arith, Bool-cases, inl, inr,
}
use leo_net.Base.Lists.{length, get_or}
use leo_net.Message.{NetMessage, pop_ptr, pop_ref, buffer_size}

pub record IsValid (m : NetMessage) : Type 0 where
  pub whole : length m.buffer ≡ buffer_size
  pub inside : m.real_size ≤ buffer_size

-- One `pop_ptr` after the other, for values of the given sizes: each size with the pointer given.
unfoldable pub pop_all : List ℕ → NetMessage → List (ℕ × Option ℕ) × NetMessage
pop_all [] m = ([], m)
pop_all (size ∷ sizes) m =
    let (p, m') = pop_ptr size m in let (ps, m'') = pop_all sizes m' in ((size, p) ∷ ps, m'')

-- The pieces handed out follow one another from `at` to `end`, each as long as its size.
pub Consecutive : ℕ → List (ℕ × Option ℕ) → ℕ → Type 0
Consecutive at [] end = at ≡ end
Consecutive at ((size, none) ∷ ps) end = Consecutive at ps end
Consecutive at ((size, some p) ∷ ps) end = (p ≡ at) × Consecutive (at + size) ps end

-- `pop_ptr` gives the next piece if it ends before the buffer's last byte.
pop_ptr_cases :
    (size : ℕ) (m : NetMessage)
    → size < 2 ^ 31
    → IsValid m
    → ((pop_ptr size m ≡ (some m.real_size, record m { real_size = m.real_size + size }))
        × (m.real_size + size < buffer_size))
      ⊎ (pop_ptr size m ≡ (none, m))
unfolding pop_ptr
pop_ptr_cases size m small valid =
    let inside = valid.inside in
    elim (Bool-cases (ltb (add32 m.real_size size) buffer_size)) [
      | inl room ↦
          let fits : m.real_size + size < buffer_size = ground arith in
          let same : u16 (m.real_size + size) ≡ m.real_size + size = omega arith in
          inl (rw (room, same) refl, fits)
      | inr over ↦ inr (rw over refl)
    ]

-- Whatever the sizes, below 2^31, `pop_ptr` on a valid message hands out pieces that follow one
-- another from the size on and end where the size does afterwards, inside the buffer, whose bytes it
-- leaves alone.
pub pop_all-Consecutive :
    (sizes : List ℕ) (m : NetMessage)
    → ((i : ℕ) → get_or sizes i 0 < 2 ^ 31)
    → IsValid m
    → Consecutive m.real_size (pop_all sizes m).0 (pop_all sizes m).1.real_size
      × IsValid (pop_all sizes m).1
      × ((pop_all sizes m).1.buffer ≡ m.buffer)
unfolding pop_all Consecutive
pop_all-Consecutive [] m small valid = (refl, valid, refl)
pop_all-Consecutive (size ∷ sizes) m small valid = elim (pop_ptr_cases size m (small 0) valid) [
  | inl (runs, fits) ↦ rw runs (
      let after = record m { real_size = m.real_size + size } in
      let (pieces, valid', same) =
        pop_all-Consecutive sizes after (λ i. small (suc i))
          (record { whole = valid.whole; inside = omega (arith, fits) }) in
      ((refl, pieces), valid', same))
  | inr runs ↦ rw runs (pop_all-Consecutive sizes m (λ i. small (suc i)) valid)
]

-- One `pop_ref` after the other; `none` where one of them ends without a `return`.
pub ref_all : List ℕ → NetMessage → Option (List ℕ × NetMessage)
ref_all [] m = some ([], m)
ref_all (size ∷ sizes) m = do
  popped ← pop_ref size m
  more ← ref_all sizes popped.1
  some (popped.0 ∷ more.0, more.1)

-- The bytes of all values, and where each of them begins.
unfoldable pub total : List ℕ → ℕ
total [] = 0
total (size ∷ sizes) = size + total sizes

pub starts : ℕ → List ℕ → List ℕ
starts at [] = []
starts at (size ∷ sizes) = at ∷ starts (at + size) sizes

-- `pop_ref` goes through exactly when the value ends before the buffer's last byte.
pop_ref_cases :
    (size : ℕ) (m : NetMessage)
    → size < 2 ^ 31
    → m.real_size ≤ buffer_size
    → ((m.real_size + size < buffer_size)
        × (pop_ref size m ≡ some (m.real_size, record m { real_size = m.real_size + size })))
      ⊎ ((buffer_size ≤ m.real_size + size) × (pop_ref size m ≡ none))
unfolding pop_ref
pop_ref_cases size m small inside = elim (Bool-cases (ltb (add32 m.real_size size) buffer_size)) [
  | inl room ↦
      let same : u16 (m.real_size + size) ≡ m.real_size + size = ground arith in
      inl (ground arith, rw (room, same) refl)
  | inr over ↦ inr (ground arith, rw over refl)
]

-- For a message that is not full and values of sizes below 2^31, a sequence of `pop_ref` calls goes
-- through if all the values together end before the buffer's last byte: they are then handed out one
-- behind the other, the identifier and the bytes as they were. Otherwise one of the calls reaches the
-- end of its body without a `return`.
pub ref_all_lem :
    (sizes : List ℕ) (m : NetMessage)
    → ((i : ℕ) → get_or sizes i 0 < 2 ^ 31)
    → m.real_size < buffer_size
    → ((m.real_size + total sizes < buffer_size)
        × (ref_all sizes m
            ≡ some (starts m.real_size sizes, record m { real_size = m.real_size + total sizes })))
      ⊎ ((buffer_size ≤ m.real_size + total sizes) × (ref_all sizes m ≡ none))
unfolding ref_all total starts
ref_all_lem [] m small room =
    let same : m.real_size + 0 ≡ m.real_size = omega arith in inl (omega arith, rw same refl)
ref_all_lem (size ∷ sizes) m small room =
    let sum : m.real_size + size + total sizes ≡ m.real_size + (size + total sizes) = omega arith in
    elim (pop_ref_cases size m (small 0) (omega arith)) [
      | inl (fits, runs) ↦
          let after = record m { real_size = m.real_size + size } in
          elim (ref_all_lem sizes after (λ i. small (suc i)) fits) [
            | inl (all, goes) ↦ inl (omega (arith, all), rw (runs, goes, sum) refl)
            | inr (over, fails) ↦ inr (omega (arith, over), rw (runs, fails) refl)
          ]
      | inr (over, fails) ↦ inr (omega (arith, over), rw fails refl)
    ]
