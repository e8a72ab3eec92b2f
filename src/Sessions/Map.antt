-- ===== src/Sessions/Map.antt =====
-- The sessions by socket (src/leo_net_session.cpp): `insert_session`, `remove_session` and
-- `get_one_session` against a finite map from sockets to sessions.
use leo_net.Base.{
  ℕ, ◌≡◌, ◌⊎◌, inl, inr, refl, ap, Bool, true, false, Option, none, some, List, [], ◌∷◌, ◌==◌,
  if◌then◌else◌, arith, Option-cases, Bool-cases,
}
use leo_net.Sessions.{
  SessionManager, find, erase, is_positive, insert_session, remove_session, get_one_session,
}

-- No socket stands twice.
unfoldable pub Distinct : List (ℕ × ℕ) → Type 0
Distinct [] = Unit {0}
Distinct ((key, session) ∷ rest) = (find key rest ≡ none) × Distinct rest

find-erase :
    (m : List (ℕ × ℕ)) (socket k : ℕ)
    → Distinct m
    → find k (erase socket m) ≡ (if k == socket then none else find k m)
unfolding find erase Distinct
find-erase [] socket k d = ground arith
find-erase ((key, session) ∷ rest) socket k d = ground (arith, find-erase rest socket k d.1, d.0)

erase-Distinct : (m : List (ℕ × ℕ)) (socket : ℕ) → Distinct m → Distinct (erase socket m)
unfolding find erase Distinct
erase-Distinct [] socket d = d
erase-Distinct ((key, session) ∷ rest) socket d = elim (Bool-cases (key == socket)) [
  | inl same ↦ rw same (d.1)
  | inr other ↦
      rw other (ground (arith, find-erase rest socket key d.1, d.0), erase-Distinct rest socket d.1)
]

-- What a method leaves: the answer, a well-formed map, the other fields, and each socket's session.
pub record Answers (s : SessionManager) (answer : Bool) (after : ℕ → Option ℕ)
    (o : Option (Bool × SessionManager)) : Type 0 where
  pub manager : SessionManager
  pub returns : o ≡ some (answer, manager)
  pub distinct : Distinct manager.map_sessions
  pub free : manager.vct_sessions ≡ s.vct_sessions
  pub finds : (k : ℕ) → is_positive k ≡ true → get_one_session k manager ≡ some (after k)

module _ (s : SessionManager) (d : Distinct s.map_sessions) (socket : ℕ)
    (positive : is_positive socket ≡ true) where
  -- For a positive socket that has no session, `insert_session` returns true and gives it the
  -- session; for one that has a session it returns false. No other socket's session changes, and no
  -- socket comes to stand twice.
  pub insert_session_lem :
      (session : ℕ)
      → ((find socket s.map_sessions ≡ none)
          × Answers s true
              (λ k. if k == socket then some session else find k s.map_sessions)
              (insert_session socket (some session) s))
        ⊎ ((other : ℕ) × (find socket s.map_sessions ≡ some other)
            × Answers s false (λ k. find k s.map_sessions) (insert_session socket (some session) s))
  unfolding insert_session get_one_session Distinct find
  insert_session_lem session = elim (Option-cases (find socket s.map_sessions)) [
    | inl absent ↦ inl (
      absent,
      record {
        manager = record s { map_sessions = (socket, session) ∷ s.map_sessions };
        returns = rw (positive, absent) refl;
        distinct = (absent, d);
        free = refl;
        finds = λ k at. rw at (ground arith);
      },
    )
    | inr (other, present) ↦ inr (
      other,
      present,
      record {
        manager = s;
        returns = rw (positive, present) refl;
        distinct = d;
        free = refl;
        finds = λ k at. rw at refl;
      },
    )
  ]

  -- For a positive socket that has a session, `remove_session` returns true and takes it away; for
  -- one that has none it returns false. No other socket's session changes, and no socket comes to
  -- stand twice.
  pub remove_session_lem :
      ((session : ℕ) × (find socket s.map_sessions ≡ some session)
        × Answers s true
            (λ k. if k == socket then none else find k s.map_sessions)
            (remove_session socket s))
      ⊎ ((find socket s.map_sessions ≡ none)
          × Answers s false (λ k. find k s.map_sessions) (remove_session socket s))
  unfolding remove_session get_one_session
  remove_session_lem = elim (Option-cases (find socket s.map_sessions)) [
    | inl absent ↦ inr (
      absent,
      record {
        manager = s;
        returns = rw (positive, absent) refl;
        distinct = d;
        free = refl;
        finds = λ k at. rw at refl;
      },
    )
    | inr (session, present) ↦ inl (
      session,
      present,
      record {
        manager = record s { map_sessions = erase socket s.map_sessions };
        returns = rw (positive, present) refl;
        distinct = erase-Distinct s.map_sessions socket d;
        free = refl;
        finds = λ k at. rw at (ap some (find-erase s.map_sessions socket k d));
      },
    )
  ]
