-- ===== src/Message/Tests.antt =====
-- Runs of the `net_message` model, and its theorems at a concrete message.
use leo_net.Base.{ℕ, zero, suc, ◌<◌, ◌^◌, ◌≤◌, ◌≡◌, ◌⊎◌, refl, none, some, List, [], ◌∷◌, arith}
use leo_net.Base.Lists.{length-replicate, get_or}
use leo_net.Message.{new_message, pop_ptr, buffer_size}
use leo_net.Message.Pops.{
  IsValid, pop_all, Consecutive, pop_all-Consecutive, total, starts, ref_all, ref_all_lem,
}

abbrev sizes : List ℕ
sizes = 4 ∷ 1018 ∷ 1 ∷ 2 ∷ []

-- The last two bytes are never handed out together, and the very last never at all.
pop_all_run :
    (pop_all sizes new_message).0 ≡ (4, some 0) ∷ (1018, some 4) ∷ (1, some 1022) ∷ (2, none) ∷ []
unfolding pop_all pop_ptr new_message
pop_all_run = refl

sizes-lt : (i : ℕ) → get_or sizes i 0 < 2 ^ 31
sizes-lt zero = omega arith
sizes-lt (suc zero) = omega arith
sizes-lt (suc (suc zero)) = omega arith
sizes-lt (suc (suc (suc zero))) = omega arith
sizes-lt (suc (suc (suc (suc i)))) = omega arith

new_message-IsValid : IsValid new_message
unfolding new_message
new_message-IsValid = record {
  whole = let z : ℕ = 0 in length-replicate 1024 z;
  inside = omega arith;
}

pop_all-Consecutive_example :
    Consecutive 0 (pop_all sizes new_message).0 (pop_all sizes new_message).1.real_size
    × IsValid (pop_all sizes new_message).1
    × ((pop_all sizes new_message).1.buffer ≡ new_message.buffer)
unfolding new_message
pop_all-Consecutive_example = pop_all-Consecutive sizes new_message sizes-lt new_message-IsValid

abbrev references : List ℕ
references = 4 ∷ 1018 ∷ 1 ∷ []

references-lt : (i : ℕ) → get_or references i 0 < 2 ^ 31
references-lt zero = omega arith
references-lt (suc zero) = omega arith
references-lt (suc (suc zero)) = omega arith
references-lt (suc (suc (suc i))) = omega arith

ref_all_lem_example :
    ((total references < buffer_size)
      × (ref_all references new_message
          ≡ some (starts 0 references, record new_message { real_size = total references })))
    ⊎ ((buffer_size ≤ total references) × (ref_all references new_message ≡ none))
unfolding new_message total
ref_all_lem_example = ref_all_lem references new_message references-lt (omega arith)
