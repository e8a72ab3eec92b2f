-- ===== src/Sessions.antt =====
-- `session_manager` (src/leo_net_session.h and src/leo_net_session.cpp): the pool of free sessions
-- and the sessions by socket. A `net_session*` is its index in `__malloc_session`; a `std::vector` is
-- a list, a `std::map` a list of its pairs. `none` in place of a whole result is a failed assertion.
-- What the methods print is left out.
pub mod Pool
pub mod Map
mod Tests
use leo_net.Base.{
  ℕ, zero, suc, ◌^◌, Bool, true, false, ◌&&◌, Option, none, some, List, [], ◌∷◌, ◌++◌, ltb, ◌==◌,
  if◌then◌else◌, ◌>>=◌, add32,
}

pub record SessionManager : Type 0 where
  pub session_id : ℕ
  pub vct_sessions : List ℕ
  pub map_sessions : List (ℕ × ℕ)

abbrev pub max_session : ℕ
max_session = 10

unfoldable pub new_manager : SessionManager
new_manager = record { session_id = 0; vct_sessions = []; map_sessions = [] }

-- The loop of `init_sessions`, from session `i` on.
unfoldable pub push_from : ℕ → ℕ → List ℕ → List ℕ
push_from zero i sessions = sessions
push_from (suc left) i sessions = push_from left (suc i) (sessions ++ (i ∷ []))

-- The first argument is whether `new` gives the array.
unfoldable pub init_sessions : Bool → SessionManager → Bool × SessionManager
init_sessions allocated s =
    if allocated
    then (true, record s { vct_sessions = push_from max_session 0 s.vct_sessions })
    else (false, s)

unfoldable pub claim_one_session : SessionManager → Option ℕ × SessionManager
claim_one_session s = elim s.vct_sessions [
  | [] ↦ (none, s)
  | session ∷ rest ↦ (some session, record s { vct_sessions = rest })
]

unfoldable pub reclaim_one_session : Option ℕ → SessionManager → Option SessionManager
reclaim_one_session none s = none
reclaim_one_session (some session) s =
    some (record s { vct_sessions = s.vct_sessions ++ (session ∷ []) })

-- `map::find`, with what stands there.
unfoldable pub find : ℕ → List (ℕ × ℕ) → Option ℕ
find socket [] = none
find socket ((key, session) ∷ rest) = if key == socket then some session else find socket rest

-- `map::erase` of the pair that `find` gives.
unfoldable pub erase : ℕ → List (ℕ × ℕ) → List (ℕ × ℕ)
erase socket [] = []
erase socket ((key, session) ∷ rest) =
    let others = erase socket rest in if key == socket then rest else ((key, session) ∷ others)

-- `socket > 0` on an `int`'s bits.
abbrev pub is_positive : ℕ → Bool
is_positive socket = ltb 0 socket && ltb socket (2 ^ 31)

unfoldable pub insert_session : ℕ → Option ℕ → SessionManager → Option (Bool × SessionManager)
insert_session socket none s = none
insert_session socket (some session) s =
    if is_positive socket
    then elim (find socket s.map_sessions) [
      | none ↦ some (true, record s { map_sessions = (socket, session) ∷ s.map_sessions })
      | some _ ↦ some (false, s)
    ]
    else none

pub remove_session : ℕ → SessionManager → Option (Bool × SessionManager)
remove_session socket s =
    if is_positive socket
    then elim (find socket s.map_sessions) [
      | none ↦ some (false, s)
      | some _ ↦ some (true, record s { map_sessions = erase socket s.map_sessions })
    ]
    else none

-- The inner `none` is the null pointer.
unfoldable pub get_one_session : ℕ → SessionManager → Option (Option ℕ)
get_one_session socket s = if is_positive socket then some (find socket s.map_sessions) else none

pub generate_session_id : SessionManager → ℕ × SessionManager
generate_session_id s = let id = add32 s.session_id 1 in (id, record s { session_id = id })

-- The destructor; the array of sessions is deleted with it.
unfoldable pub end_manager : SessionManager → SessionManager
end_manager s = record { session_id = 0; vct_sessions = []; map_sessions = [] }
