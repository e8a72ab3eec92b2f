-- ===== src/Server/Read/Rounds.antt =====
-- The rounds of the loop of `on_read` (src/main.c).
use leo_net.Base.{
  ℕ, suc, ◌+◌, ◌*◌, ◌%◌, ◌^◌, ◌<◌, ◌≤◌, ◌≡◌, ◌⊎◌, inl, inr, refl, bit_xor, Bool, true, some, List,
  [], ◌∷◌, arith, ltb, ◌>>=◌, if◌then◌else◌, Bool-cases, ltb→lt,
}
use leo_net.Base.Lists.{get_or, length}
use leo_net.Base.Endian.{load16}
use leo_net.Base.Memory.{load_block, slice}
use leo_net.Ring.{used}
use leo_net.Ring.Valid.{IsValid, contents, length-contents}
use leo_net.Ring.Fifo.{overwrite, peek_read_lem}
use leo_net.Server.{NetSession}
use leo_net.Server.Read.{read_loop, take_packet}

-- The length that the first two bytes of the read buffer announce, masked with the session's key.
abbrev pub announced : NetSession → ℕ
announced s =
    let bytes = contents s.read_buffer in
    bit_xor (get_or bytes 1 0 * 2 ^ 8 + get_or bytes 0 0) (s.crypt.session_key % 2 ^ 16)

load_length :
    (b : List ℕ)
    → 2 ≤ length b
    → load16 (overwrite 2 b (0 ∷ 0 ∷ [])) 0 ≡ some (get_or b 1 0 * 2 ^ 8 + get_or b 0 0)
unfolding load16 load_block slice
load_length (x ∷ y ∷ rest) h = refl
load_length [] h = absurd (omega arith)
load_length (x ∷ []) h = absurd (omega arith)

module _ (crc32_table : List ℕ) (allocated : Bool) (s : NetSession)
    (valid : IsValid s.read_buffer) where
  -- A round of the loop of `on_read` on a session with a valid read buffer ends the loop and changes
  -- nothing when fewer than two bytes are stored or fewer than the first two announce; otherwise,
  -- memory for a message given, it takes a packet of that many bytes and the loop goes on.
  pub read_loop_lem :
      (fuel : ℕ)
      → (((used s.read_buffer < 2) ⊎ (used s.read_buffer < announced s))
          × (read_loop crc32_table allocated (suc fuel) s ≡ some (true, s)))
        ⊎ ((2 ≤ used s.read_buffer)
            × (announced s ≤ used s.read_buffer)
            × (read_loop crc32_table allocated (suc fuel) s ≡ (
                if allocated
                then (take_packet crc32_table allocated (announced s) s
                    >>= read_loop crc32_table allocated fuel)
                else some (true, s))))
  unfolding read_loop
  read_loop_lem fuel =
      let peeks = peek_read_lem valid (0 ∷ 0 ∷ []) 2 (omega arith) in
      elim (Bool-cases (ltb (used s.read_buffer) 2)) [
        | inl few ↦ inl (inl (ltb→lt _ _ few), rw (peeks, few) refl)
        | inr two ↦
            let bytes = contents s.read_buffer in
            let enough : 2 ≤ used s.read_buffer = ground arith in
            let loads = load_length bytes (omega (arith, length-contents s.read_buffer)) in
            elim (Bool-cases (ltb (used s.read_buffer) (announced s))) [
              | inl part ↦ inl (inr (ltb→lt _ _ part), rw (peeks, two, loads, part) refl)
              | inr whole ↦
                  let there : announced s ≤ used s.read_buffer = ground arith in
                  inr (enough, there, rw (peeks, two, loads, whole) refl)
            ]
      ]
