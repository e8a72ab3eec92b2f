-- ===== src/Loop/Owners.antt =====
-- Who has a session: the pool, or one socket (src/leo_net_session.cpp, and `on_accept` of
-- src/main.c).
use leo_net.Base.{
  ℕ, ◌+◌, ◌<◌, ◌≤◌, ◌≡◌, ◌⊎◌, inl, inr, ap, Bool, Bool-cases, Option-cases, none, some,
  some-injective, List, [], ◌∷◌, ◌==◌, arith, if◌then◌else◌,
}
use leo_net.Sessions.{SessionManager, find, is_positive, insert_session}
use leo_net.Sessions.Map.{Distinct}
use leo_net.Sessions.Pool.{occurs}

-- How many sockets have a session.
unfoldable pub holders : ℕ → List (ℕ × ℕ) → ℕ
holders x [] = 0
holders x ((socket, session) ∷ rest) = (if session == x then 1 else 0) + holders x rest

-- No socket stands twice, a session is in the pool once or has one socket, and those of the pool and
-- of the sockets are among the `count` of the array.
pub record IsOwned (count : ℕ) (m : SessionManager) : Type 0 where
  pub distinct : Distinct m.map_sessions
  pub once : (x : ℕ) → occurs x m.vct_sessions + holders x m.map_sessions ≤ 1
  pub inside : (x : ℕ) → 0 < occurs x m.vct_sessions + holders x m.map_sessions → x < count

-- `claim_one_session` takes a session that nobody has.
module _ (count : ℕ) (m : SessionManager) (owned : IsOwned count m) (at : ℕ) (rest : List ℕ)
    (front : m.vct_sessions ≡ at ∷ rest) where
  pub before : (x : ℕ) → occurs x m.vct_sessions ≡ (if at == x then 1 else 0) + occurs x rest
  unfolding occurs
  before x = ap (occurs x) front

  pub claimed-IsOwned : IsOwned count (record m { vct_sessions = rest })
  claimed-IsOwned = record {
    distinct = owned.distinct;
    once = λ x. omega (arith, before x, owned.once x);
    inside = λ x h. owned.inside x (omega (arith, before x, h));
  }

  pub given-IsOwned :
      (socket : ℕ)
      → find socket m.map_sessions ≡ none
      → IsOwned count
          (record m { vct_sessions = rest; map_sessions = (socket, at) ∷ m.map_sessions })
  unfolding holders Distinct
  given-IsOwned socket absent = record {
    distinct = (absent, owned.distinct);
    once = λ x. ground (arith, before x, owned.once x);
    inside = λ x h. owned.inside x (ground (arith, before x, h));
  }

-- What `insert_session` leaves of the manager.
pub insert_session_cases :
    (socket at : ℕ) (m : SessionManager) (r : Bool × SessionManager)
    → insert_session socket (some at) m ≡ some r
    → (m ≡ r.1)
      ⊎ ((find socket m.map_sessions ≡ none)
          × (record m { map_sessions = (socket, at) ∷ m.map_sessions } ≡ r.1))
unfolding insert_session
insert_session_cases socket at m r e = elim (Bool-cases (is_positive socket)) [
  | inl positive ↦ elim (Option-cases (find socket m.map_sessions)) [
    | inl absent ↦ inr (absent, ap (λ x. x.1) (some-injective _ _ (rw (positive, absent) at e)))
    | inr (other, present) ↦ inl (ap (λ x. x.1) (some-injective _ _ (rw (positive, present) at e)))
  ]
  | inr negative ↦ absurd (ground (arith, rw negative at e))
]
