-- ===== src/Server/Accept/Claims.antt =====
-- What `on_accept` (src/main.c) does to the server's state.
use leo_net.Base.{
  ℕ, ◌≤◌, ◌<◌, ◌≡◌, ◌∙◌, refl, ap, true, Option, none, some, List, [], ◌∷◌, ◌==◌, if◌then◌else◌,
  Bool-cases, ==_iff, inl, inr,
}
use leo_net.Base.Lists.{length, get_elem?, set}
use leo_net.Base.Memory.{store_elem_lem}
use leo_net.Base.Endian.{IsBytes}
use leo_net.Sessions.{SessionManager, find, is_positive, claim_one_session, get_one_session}
use leo_net.Sessions.Map.{Distinct, insert_session_lem}
use leo_net.Protocol.Key.Sent.{IsKeys, fresh, send_key_lem}
use leo_net.Server.{NetSession, Server}
use leo_net.Server.Accept.{on_accept, start_session}

-- With no session free, a connection changes nothing.
pub on_accept_full :
    (xor_keys : List ℕ) (rand rand' : ℕ) (junk : List ℕ) (fd : ℕ) (server : Server)
    → server.manager.vct_sessions ≡ []
    → on_accept xor_keys rand rand' junk fd server ≡ some server
unfolding on_accept claim_one_session
on_accept_full xor_keys rand rand' junk fd server e = rw e refl

-- The session that a socket has once `at` is offered for it.
abbrev pub holder : ℕ → ℕ → List (ℕ × ℕ) → ℕ
holder fd at sessions = elim (find fd sessions) [ none ↦ at | some other ↦ other ]

keeps :
    (fd other : ℕ) (sessions : List (ℕ × ℕ))
    → find fd sessions ≡ some other
    → (k : ℕ) → some (find k sessions) ≡ some (if k == fd then some other else find k sessions)
keeps fd other sessions present k = elim (Bool-cases (k == fd)) [
  | inl same ↦ rw same (ap (λ j. some (find j sessions)) ((==_iff _ _).0 same) ∙ ap some present)
  | inr different ↦ rw different refl
]

-- What is left behind.
pub record Accepted (server : Server) (fd at : ℕ) (rest : List ℕ) (started : NetSession)
    (result : Option Server) : Type 0 where
  pub manager : SessionManager
  pub returns :
      result
      ≡ some (record { manager = manager; malloc_session = set server.malloc_session at started })
  pub free : manager.vct_sessions ≡ rest
  pub distinct : Distinct manager.map_sessions
  pub finds :
      (k : ℕ)
      → is_positive k ≡ true
      → get_one_session k manager
        ≡ some (
            if k == fd
            then some (holder fd at server.manager.map_sessions)
            else find k server.manager.map_sessions)

module _ (xor_keys : List ℕ) (whole : length xor_keys ≡ 4352) (bytes : IsBytes xor_keys)
    (rand rand' : ℕ) (junk : List ℕ) (room : 32 ≤ length junk) (junk_bytes : IsBytes junk) (fd : ℕ)
    (positive : is_positive fd ≡ true) (server : Server)
    (distinct : Distinct server.manager.map_sessions) where
  -- With the table of xor keys whole, a buffer of 32 bytes or more, no socket twice in the map and
  -- a session of valid keys free, `on_accept` on a positive socket takes the first free one out of
  -- the pool, gives it the socket, the keys of `send_key` and number 0, and lets the socket be found
  -- with it, unless the socket had a session already, which it keeps.
  pub on_accept_lem :
      (at : ℕ) (rest : List ℕ) (s : NetSession)
      → server.manager.vct_sessions ≡ at ∷ rest
      → at < length server.malloc_session
      → get_elem? server.malloc_session at ≡ some s
      → IsKeys s.crypt
      → Accepted server fd at rest
          (record s { socket = fd; crypt = fresh xor_keys rand rand' s.crypt })
          (on_accept xor_keys rand rand' junk fd server)
  unfolding on_accept claim_one_session start_session
  on_accept_lem at rest s free inside is_session keys =
      let taken = record server.manager { vct_sessions = rest } in
      let (out, sends, kept, told) =
        send_key_lem xor_keys rand rand' s.crypt junk whole bytes keys room junk_bytes in
      let started = record s { socket = fd; crypt = fresh xor_keys rand rand' s.crypt } in
      elim (insert_session_lem taken distinct fd positive at) [
        | inl (absent, a) ↦ record {
          manager = a.manager;
          returns =
              rw
                (
                  free,
                  is_session,
                  a.returns,
                  sends,
                  store_elem_lem server.malloc_session at started inside,
                )
                refl;
          free = a.free;
          distinct = a.distinct;
          finds = λ k p. a.finds k p ∙ rw (holder, absent) refl;
        }
        | inr (other, present, a) ↦ record {
          manager = a.manager;
          returns =
              rw
                (
                  free,
                  is_session,
                  a.returns,
                  sends,
                  store_elem_lem server.malloc_session at started inside,
                )
                refl;
          free = a.free;
          distinct = a.distinct;
          finds = λ k p.
              a.finds k p
              ∙ (keeps fd other server.manager.map_sessions present k ∙ rw (holder, present) refl);
        }
      ]
