-- ===== src/Loop/Apart.antt =====
-- One connection's data never reach another's session (src/main.c).
use leo_net.Base.{
  ℕ, zero, suc, ◌≤◌, ◌≡◌, ◌≢◌, ◌∙◌, inl, inr, refl, sym, ap, Bool, false, Bool-cases, Option, some,
  some-injective, some_bind, List, [], ◌∷◌, ◌==◌, ltb, arith,
}
use leo_net.Base.Lists.{length, get_elem?, set}
use leo_net.Base.Memory.{store_elem}
use leo_net.Sessions.{SessionManager, find, is_positive, get_one_session}
use leo_net.Server.{NetSession, Server}
use leo_net.Server.Read.{on_read, read_session}
use leo_net.Loop.Owners.{holders}
use leo_net.Loop.Kept.{IsServer, looked_up}

pub holds_one : (a x : ℕ) (m : List (ℕ × ℕ)) → find a m ≡ some x → 1 ≤ holders x m
unfolding find holders
holds_one a x [] e = absurd (ground (arith, e))
holds_one a x ((key, session) ∷ rest) e = elim (Bool-cases (key == a)) [
  | inl this ↦ let same : session ≡ x = some-injective _ _ (rw this at e) in ground (arith, same)
  | inr other ↦ let more = holds_one a x rest (rw other at e) in ground (arith, more)
]

-- Two sockets of one session would hold it twice.
holds_two :
    (a b x : ℕ) (m : List (ℕ × ℕ)) → a ≢ b → find a m ≡ some x → find b m ≡ some x → 2 ≤ holders x m
unfolding find holders
holds_two a b x [] n e f = absurd (ground (arith, e))
holds_two a b x ((key, session) ∷ rest) n e f = elim (Bool-cases (key == a)) [
  | inl this ↦
      let same : session ≡ x = some-injective _ _ (rw this at e) in
      let not_b : (key == b) ≡ false = ground (arith, n, this) in
      let more = holds_one b x rest (rw not_b at f) in ground (arith, same, more)
  | inr other ↦ elim (Bool-cases (key == b)) [
    | inl that ↦
        let same : session ≡ x = some-injective _ _ (rw that at f) in
        let more = holds_one a x rest (rw other at e) in ground (arith, same, more)
    | inr neither ↦
        let more = holds_two a b x rest n (rw other at e) (rw neither at f) in ground (arith, more)
  ]
]

get_elem?-set :
    (xs : List NetSession) (i j : ℕ) (s : NetSession)
    → i ≢ j
    → get_elem? (set xs i s) j ≡ get_elem? xs j
get_elem?-set [] i j s n = refl
get_elem?-set (x ∷ xs) zero zero s n = absurd (n refl)
get_elem?-set (x ∷ xs) zero (suc j) s n = refl
get_elem?-set (x ∷ xs) (suc i) zero s n = refl
get_elem?-set (x ∷ xs) (suc i) (suc j) s n = get_elem?-set xs i j s (λ e. n (ap suc e))

store_elem-other :
    (xs out : List NetSession) (i j : ℕ) (s : NetSession)
    → i ≢ j
    → store_elem xs i s ≡ some out
    → get_elem? out j ≡ get_elem? xs j
unfolding store_elem
store_elem-other xs out i j s n e = elim (Bool-cases (ltb i (length xs))) [
  | inl inside ↦
      ap (λ l. get_elem? l j) (sym (some-injective _ _ (rw inside at e))) ∙ get_elem?-set xs i j s n
  | inr outside ↦ absurd (ground (arith, rw outside at e))
]

finds_it :
    (socket : ℕ) (m : SessionManager) (found : Option ℕ)
    → get_one_session socket m ≡ some found
    → find socket m.map_sessions ≡ found
unfolding get_one_session
finds_it socket m found e = elim (Bool-cases (is_positive socket)) [
  | inl positive ↦ some-injective _ _ (rw positive at e)
  | inr negative ↦ absurd (ground (arith, rw negative at e))
]

module _ (crc32_table : List ℕ) (allocated : Bool) (fuel : ℕ) (recv : ℕ → List ℕ) where
  -- In a sound server an `on_read` on one socket that makes no access out of range leaves the manager
  -- and the session of every other socket as they were.
  pub on_read_apart :
      (server : Server)
      → IsServer server
      → (fd other session : ℕ) (r : Bool × Server)
      → on_read crc32_table allocated fuel recv fd server ≡ some r
      → fd ≢ other
      → get_one_session other server.manager ≡ some (some session)
      → (r.1.manager ≡ server.manager)
        × (get_elem? r.1.malloc_session session ≡ get_elem? server.malloc_session session)
  unfolding on_read
  on_read_apart server v fd other session r e apart theirs =
      let (found, finds, f) = some_bind (get_one_session fd server.manager) _ r e in
      elim (looked_up _ _ found r f) [
        | inl (absent) ↦
            let same = some-injective _ _ absent in
            (
              ap (λ x. x.1.manager) (sym same),
              ap (λ x. get_elem? x.1.malloc_session session) (sym same),
            )
        | inr (at, present, g) ↦
            let ours : find fd server.manager.map_sessions ≡ some at =
              finds_it fd server.manager found finds ∙ present in
            let other_one : find other server.manager.map_sessions ≡ some session =
              finds_it other server.manager (some session) theirs in
            let different : at ≢ session = λ same. absurd (
              omega (
                arith,
                v.owned.once at,
                holds_two fd other at server.manager.map_sessions apart ours
                    (other_one ∙ ap some (sym same)),
              )) in
            let (s, is_session, g₁) = some_bind (get_elem? server.malloc_session at) _ r g in
            let (result, reads, g₂) =
              some_bind (read_session crc32_table allocated fuel recv s) _ r g₁ in
            let (sessions, stores, g₃) =
              some_bind (store_elem server.malloc_session at result.1) _ r g₂ in
            let same = some-injective _ _ g₃ in
            (
              ap (λ x. x.1.manager) (sym same),
              ap (λ x. get_elem? x.1.malloc_session session) (sym same)
                  ∙ store_elem-other server.malloc_session sessions at session result.1 different
                      stores,
            )
      ]
