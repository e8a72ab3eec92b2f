-- ===== src/Loop/Kept.antt =====
-- What holds of the server (src/main.c) between two events, and that every step keeps it.
use leo_net.Base.{
  ℕ, zero, suc, ◌≤◌, ◌≡◌, ◌⊎◌, ◌∙◌, inl, inr, refl, sym, ap, Bool, Bool-cases, Option, none, some,
  some-injective, some_bind, List, [], ◌∷◌, arith, ltb,
}
use std.Path.{subst}
use leo_net.Base.Lists.{length, get_elem?, set, length-set}
use leo_net.Base.Memory.{store_elem}
use leo_net.Base.Endian.{IsBytes}
use leo_net.Sessions.{get_one_session, insert_session, claim_one_session}
use leo_net.Protocol.{AboutCrypt}
use leo_net.Protocol.Key.{send_key}
use leo_net.Protocol.Key.Sent.{IsKeys, send_key_lem}
use leo_net.Server.{NetSession, Server, on_write, write_session}
use leo_net.Server.Read.{on_read, read_session}
use leo_net.Server.Accept.{on_accept, start_session, set_socket}
use leo_net.Server.Working.{IsWorking, read_session-IsWorking, write_session-IsWorking}
use leo_net.Server.Session.Calls.{IsSession, parts-IsSession}
use leo_net.Server.Write.{List-cases}
use leo_net.Server.Accept.Claims.{on_accept_full}
use leo_net.Loop.Owners.{insert_session_cases, IsOwned, claimed-IsOwned, given-IsOwned}

-- Every session of the array is fit for work.
abbrev pub AllWorking : List NetSession → Type 0
AllWorking sessions = (i : ℕ) (s : NetSession) → get_elem? sessions i ≡ some s → IsWorking s

pub cons-AllWorking :
    (s : NetSession) (rest : List NetSession)
    → IsWorking s
    → AllWorking rest
    → AllWorking (s ∷ rest)
cons-AllWorking s rest w all zero s' e = subst IsWorking (some-injective _ _ e) w
cons-AllWorking s rest w all (suc i) s' e = all i s' e

pub record IsServer (server : Server) : Type 0 where
  pub owned : IsOwned (length server.malloc_session) server.manager
  pub working : AllWorking server.malloc_session

set-AllWorking :
    (sessions : List NetSession) (at : ℕ) (s : NetSession)
    → IsWorking s
    → AllWorking sessions
    → AllWorking (set sessions at s)
set-AllWorking [] at s w all i s' e = all i s' e
set-AllWorking (x ∷ xs) zero s w all zero s' e = subst IsWorking (some-injective _ _ e) w
set-AllWorking (x ∷ xs) zero s w all (suc i) s' e = all (suc i) s' e
set-AllWorking (x ∷ xs) (suc at) s w all zero s' e = all zero s' e
set-AllWorking (x ∷ xs) (suc at) s w all (suc i) s' e =
    set-AllWorking xs at s w (λ j t h. all (suc j) t h) i s' e

-- A session is changed in place.
pub store-IsServer :
    (server : Server) (at : ℕ) (s : NetSession) (sessions : List NetSession)
    → IsServer server
    → IsWorking s
    → store_elem server.malloc_session at s ≡ some sessions
    → IsServer (record server { malloc_session = sessions })
unfolding store_elem
store-IsServer server at s sessions v w e =
    elim (Bool-cases (ltb at (length server.malloc_session))) [
      | inl inside ↦
          let put : set server.malloc_session at s ≡ sessions =
            some-injective _ _ (rw inside at e) in
          let same : length server.malloc_session ≡ length sessions =
            sym (length-set server.malloc_session at s) ∙ ap length put in
          record {
            owned = subst (λ n. IsOwned n server.manager) same v.owned;
            working = subst AllWorking put (set-AllWorking server.malloc_session at s w v.working);
          }
      | inr outside ↦ absurd (ground (arith, rw outside at e))
    ]

-- A handler that looks a session up.
pub looked_up {ℓ} :
    {R : Type ℓ} (k : ℕ → Option R) (n : Option R) (session : Option ℕ) (r : R)
    → elim session [ none ↦ n | some at ↦ k at ] ≡ some r
    → (n ≡ some r) ⊎ ((at : ℕ) × (session ≡ some at) × (k at ≡ some r))
looked_up k n none r e = inl e
looked_up k n (some at) r e = inr (at, refl, e)

module _ (crc32_table : List ℕ) (allocated : Bool) (fuel : ℕ) (recv : ℕ → List ℕ) where
  pub on_read-IsServer :
      (fd : ℕ) (server : Server)
      → IsServer server
      → (r : Bool × Server) → on_read crc32_table allocated fuel recv fd server ≡ some r
      → IsServer r.1
  unfolding on_read
  on_read-IsServer fd server v r e =
      let (session, finds, f) = some_bind (get_one_session fd server.manager) _ r e in
      elim (looked_up _ _ session r f) [
        | inl absent ↦ subst (λ x. IsServer x.1) (some-injective _ _ absent) v
        | inr (at, _, g) ↦
            let (s, is_session, g₁) = some_bind (get_elem? server.malloc_session at) _ r g in
            let (result, reads, g₂) =
              some_bind (read_session crc32_table allocated fuel recv s) _ r g₁ in
            let (sessions, stores, g₃) =
              some_bind (store_elem server.malloc_session at result.1) _ r g₂ in
            let w =
              read_session-IsWorking crc32_table allocated fuel recv s (v.working at s is_session)
                result reads in
            subst (λ x. IsServer x.1) (some-injective _ _ g₃)
              (store-IsServer server at result.1 sessions v w stores)
      ]

module _ (fuel : ℕ) (send : List ℕ → ℕ) where
  pub on_write-IsServer :
      (fd : ℕ) (server : Server)
      → IsServer server
      → (r : Bool × Bool × Server) → on_write fuel send fd server ≡ some r
      → IsServer r.2
  unfolding on_write
  on_write-IsServer fd server v r e =
      let (session, finds, f) = some_bind (get_one_session fd server.manager) _ r e in
      elim (looked_up _ _ session r f) [
        | inl absent ↦ subst (λ x. IsServer x.2) (some-injective _ _ absent) v
        | inr (at, _, g) ↦
            let (s, is_session, g₁) = some_bind (get_elem? server.malloc_session at) _ r g in
            let (result, writes, g₂) = some_bind (write_session fuel send s) _ r g₁ in
            let (sessions, stores, g₃) =
              some_bind (store_elem server.malloc_session at result.2) _ r g₂ in
            let w = write_session-IsWorking fuel send s (v.working at s is_session) result writes in
            subst (λ x. IsServer x.2) (some-injective _ _ g₃)
              (store-IsServer server at result.2 sessions v w stores)
      ]

moved-IsSession :
    (s : NetSession) (fd : ℕ) (crypt : AboutCrypt)
    → IsSession s
    → IsSession (record (set_socket s fd) { crypt = crypt })
moved-IsSession s fd crypt v =
    parts-IsSession v.read_ring v.write_ring v.read_messages v.write_messages

module _ (xor_keys : List ℕ) (whole : length xor_keys ≡ 4352) (bytes : IsBytes xor_keys)
    (rand rand' : ℕ) (buf : List ℕ) (room : 32 ≤ length buf) (buf_bytes : IsBytes buf)
    (fd : ℕ) where
  start_session-IsServer :
      (at : ℕ) (rest : List ℕ) (server server' : Server)
      → IsServer server
      → server.manager.vct_sessions ≡ at ∷ rest
      → start_session xor_keys rand rand' buf fd at
          (record server { manager = record server.manager { vct_sessions = rest } })
        ≡ some server'
      → IsServer server'
  unfolding start_session
  start_session-IsServer at rest server server' v front e =
      let m = record server.manager { vct_sessions = rest } in
      let (s, is_session, f₁) = some_bind (get_elem? server.malloc_session at) _ server' e in
      let (inserted, inserts, f₂) = some_bind (insert_session fd (some at) m) _ server' f₁ in
      let (sent, sends, f₃) = some_bind (send_key xor_keys rand rand' s.crypt buf) _ server' f₂ in
      let started = record (set_socket s fd) { crypt = sent.1 } in
      let (sessions, stores, f₄) =
        some_bind (store_elem server.malloc_session at started) _ server' f₃ in
      let working = v.working at s is_session in
      let (out, told, kept, _) =
        send_key_lem xor_keys rand rand' s.crypt buf whole bytes working.keys room buf_bytes in
      let same = ap (λ x. x.1) (some-injective _ _ (sym told ∙ sends)) in
      let w : IsWorking started = record {
        session = moved-IsSession s fd sent.1 working.session;
        keys = subst IsKeys same kept;
      } in
      let owned : IsOwned (length server.malloc_session) inserted.1 =
        elim (insert_session_cases fd at m inserted inserts) [
          | inl refused ↦
              subst (IsOwned _) refused (claimed-IsOwned _ server.manager v.owned at rest front)
          | inr (absent, given) ↦
              subst (IsOwned _) given
                (given-IsOwned _ server.manager v.owned at rest front fd absent)
        ] in
      subst IsServer (some-injective _ _ f₄) (
        store-IsServer (record server { manager = inserted.1 }) at started sessions
          (record { owned = owned; working = v.working }) w stores)

  pub on_accept-IsServer :
      (server server' : Server)
      → IsServer server
      → on_accept xor_keys rand rand' buf fd server ≡ some server'
      → IsServer server'
  unfolding on_accept claim_one_session
  on_accept-IsServer server server' v e = elim (List-cases server.manager.vct_sessions) [
    | inl full ↦
        subst IsServer
          (some-injective _ _ (sym (on_accept_full xor_keys rand rand' buf fd server full) ∙ e)) v
    | inr (at, rest, front) ↦ start_session-IsServer at rest server server' v front (rw front at e)
  ]
