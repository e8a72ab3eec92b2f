-- ===== src/Sessions/Pool.antt =====
-- The pool of sessions (src/leo_net_session.cpp): `init_sessions`, `claim_one_session` and
-- `reclaim_one_session` in any order.
use leo_net.Base.{ℕ, ◌+◌, ◌≡◌, ap, true, some, List, [], ◌∷◌, ◌++◌, ltb, ◌==◌, if◌then◌else◌, arith}
use leo_net.Sessions.{
  SessionManager, max_session, new_manager, push_from, init_sessions, claim_one_session,
  reclaim_one_session,
}

-- How often a session stands in a list.
unfoldable pub occurs : ℕ → List ℕ → ℕ
occurs x [] = 0
occurs x (y ∷ ys) = (if y == x then 1 else 0) + occurs x ys

occurs-append : (x : ℕ) (ys zs : List ℕ) → occurs x (ys ++ zs) ≡ occurs x ys + occurs x zs
unfolding occurs
occurs-append x [] zs = omega arith
occurs-append x (y ∷ ys) zs = omega (arith, occurs-append x ys zs)

-- The manager, and the sessions that its clients hold.
pub record Pool : Type 0 where
  pub manager : SessionManager
  pub claimed : List ℕ

-- A client gives back only what it holds.
pub data Step : Pool → Pool → Type 0 where
  claim :
      (p : Pool) (session : ℕ) (manager : SessionManager)
      → claim_one_session p.manager ≡ (some session, manager)
      → Step p (record { manager = manager; claimed = session ∷ p.claimed })
  reclaim :
      (p : Pool) (session : ℕ) (before behind : List ℕ) (manager : SessionManager)
      → p.claimed ≡ before ++ (session ∷ behind)
      → reclaim_one_session (some session) p.manager ≡ some manager
      → Step p (record { manager = manager; claimed = before ++ behind })

pub data Reach : Pool → Pool → Type 0 where
  here : {p : Pool} → Reach p p
  next : {p q r : Pool} → Reach p q → Step q r → Reach p r

-- Every session of the array is held once or free once.
pub IsPartition : Pool → Type 0
IsPartition p =
    (x : ℕ)
    → occurs x p.claimed + occurs x p.manager.vct_sessions ≡ (if ltb x max_session then 1 else 0)

abbrev pub initial : Pool
initial = record { manager = (init_sessions true new_manager).1; claimed = [] }

initial-IsPartition : IsPartition initial
unfolding IsPartition init_sessions new_manager push_from occurs
initial-IsPartition x = ground arith

claimed_front :
    (s : SessionManager) (session : ℕ) (s' : SessionManager)
    → claim_one_session s ≡ (some session, s')
    → s.vct_sessions ≡ session ∷ s'.vct_sessions
unfolding claim_one_session
claimed_front s session s' e = ground arith

Step-IsPartition : {p q : Pool} → Step p q → IsPartition p → IsPartition q
unfolding IsPartition reclaim_one_session occurs
Step-IsPartition (claim p session manager e) v x =
    ground (arith, v x, ap (occurs x) (claimed_front p.manager session manager e))
Step-IsPartition (reclaim p session before behind manager e e') v x =
    let free : manager.vct_sessions ≡ p.manager.vct_sessions ++ (session ∷ []) =
      ground (arith, e') in
    omega (
      arith,
      v x,
      ap (occurs x) e,
      ap (occurs x) free,
      occurs-append x before (session ∷ behind),
      occurs-append x before behind,
      occurs-append x p.manager.vct_sessions (session ∷ []),
    )

-- In whatever order the ten sessions are claimed and the claimed ones given back, every session of
-- the array is either free once or held by one client, and no other is.
pub claims-IsPartition : {p : Pool} → Reach initial p → IsPartition p
claims-IsPartition here = initial-IsPartition
claims-IsPartition (next reached step) = Step-IsPartition step (claims-IsPartition reached)
