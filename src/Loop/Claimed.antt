-- ===== src/Loop/Claimed.antt =====
-- The session that a connection claims (`on_accept` of src/main.c).
use leo_net.Base.{
  ℕ, ◌+◌, ◌<◌, ◌≤◌, ◌≡◌, ◌≢◌, ◌⊎◌, ◌∙◌, inl, inr, sym, ap, true, Bool-cases, Option-cases, none,
  some, some-injective, List, ◌∷◌, ◌==◌, arith,
}
use leo_net.Base.Lists.{length, get_elem?}
use leo_net.Base.Endian.{IsBytes}
use leo_net.Protocol.Key.Sent.{fresh}
use leo_net.Sessions.{SessionManager, find, is_positive, get_one_session}
use leo_net.Sessions.Pool.{occurs}
use leo_net.Server.{NetSession, Server}
use leo_net.Server.Accept.{on_accept}
use leo_net.Server.Accept.Claims.{Accepted, holder, on_accept_lem}
use leo_net.Loop.Owners.{before}
use leo_net.Loop.Kept.{IsServer}
use leo_net.Loop.Apart.{holds_one}

-- Neither in the pool nor found with any socket.
pub IsLost : ℕ → SessionManager → Type 0
IsLost at m =
    (occurs at m.vct_sessions ≡ 0)
    × ((k : ℕ) → is_positive k ≡ true → get_one_session k m ≢ some (some at))

module _ (server : Server) (v : IsServer server) (at : ℕ) (rest : List ℕ)
    (free : server.manager.vct_sessions ≡ at ∷ rest) where
  claimed_once : occurs at server.manager.vct_sessions ≡ 1 + occurs at rest
  claimed_once =
      ground (arith, before (length server.malloc_session) server.manager v.owned at rest free at)

  -- A free session has no socket.
  unfound : (k : ℕ) → find k server.manager.map_sessions ≢ some at
  unfound k e =
      omega (arith, v.owned.once at, claimed_once, holds_one k at server.manager.map_sessions e)

  module _ (xor_keys : List ℕ) (whole : length xor_keys ≡ 4352) (bytes : IsBytes xor_keys)
      (rand rand' : ℕ) (junk : List ℕ) (room : 32 ≤ length junk) (junk_bytes : IsBytes junk)
      (fd : ℕ) (positive : is_positive fd ≡ true) where
    -- In a sound server, with the table of xor keys whole, a buffer of 32 bytes or more and a session
    -- free, `on_accept` on a positive socket takes the first free one out of the pool, gives it the
    -- socket, the keys of `send_key` and number 0, and lets the socket be found with it, unless the
    -- socket had a session already, which it keeps: then the claimed one is neither free nor
    -- found with any socket afterwards.
    pub on_accept_claimed :
        (s : NetSession)
        → get_elem? server.malloc_session at ≡ some s
        → (a : Accepted server fd at rest
            (record s { socket = fd; crypt = fresh xor_keys rand rand' s.crypt })
            (on_accept xor_keys rand rand' junk fd server))
          × ((find fd server.manager.map_sessions ≡ none) ⊎ IsLost at a.manager)
    unfolding IsLost
    on_accept_claimed s is_session =
        let inside : at < length server.malloc_session =
          v.owned.inside at (omega (arith, claimed_once)) in
        let a =
          on_accept_lem xor_keys whole bytes rand rand' junk room junk_bytes fd positive server
            v.owned.distinct at rest s free inside is_session (v.working at s is_session).keys in
        (
          a,
          elim (Option-cases (find fd server.manager.map_sessions)) [
            | inl absent ↦ inl absent
            | inr (other, present) ↦ inr (
              omega (arith, v.owned.once at, claimed_once, ap (occurs at) a.free),
              λ k p e. lost a other present k p e,
            )
          ],
        )
      where
        lost :
            (a : Accepted server fd at rest
              (record s { socket = fd; crypt = fresh xor_keys rand rand' s.crypt })
              (on_accept xor_keys rand rand' junk fd server))
            (other : ℕ)
            → find fd server.manager.map_sessions ≡ some other
            → (k : ℕ) → is_positive k ≡ true
            → get_one_session k a.manager ≢ some (some at)
        lost a other present k p e = elim (Bool-cases (k == fd)) [
          | inl this ↦
              let held : some (holder fd at server.manager.map_sessions) ≡ some at =
                some-injective _ _ (rw this at (sym (a.finds k p) ∙ e)) in
              unfound fd (present ∙ rw (holder, present) at held)
          | inr different ↦ unfound k (some-injective _ _ (rw different at (sym (a.finds k p) ∙ e)))
        ]
