-- ===== src/Singleton/Tests.antt =====
-- A run of the singleton's model, and its theorem at it.
use leo_net.Base.{ℕ, ◌≡◌, ◌↔◌, some, List, [], ◌∷◌}
use leo_net.Singleton.{Pointer, null, Call, create, get_it, release, calls, IsLife, calls_iff}

abbrev life : List Call
life = create ∷ get_it ∷ get_it ∷ release ∷ get_it ∷ []

calls_iff_example : ((p : Pointer ℕ) × (calls 7 life null ≡ some p)) ↔ IsLife life
calls_iff_example = calls_iff 7 life
