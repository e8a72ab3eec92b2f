-- ===== src/Protocol/Receive.antt =====
-- What `transform_buffer_to_message` (src/leo_tcp_game_protocol.c) does with a packet: what it
-- leaves behind, and a packet that arrives twice.
use leo_net.Base.{
  ℕ, suc, ==_iff, ◌+◌, ◌-◌, ◌^◌, ◌≤◌, ◌<◌, ◌≡◌, ◌∙◌, refl, ap, bit_xor, Bool, true, false, ◌&&◌,
  some, List, ◌∷◌, ◌==◌, if◌then◌else◌, add32, arith, Bool-cases, inl, inr,
}
use leo_net.Base.Lists.{length, take}
use leo_net.Base.Endian.{IsBytes, word_at, load32_lem}
use leo_net.Message.{NetMessage}
use leo_net.Xor.{xor_crypt, xor_decrypt}
use leo_net.Xor.Laws.{xor_decrypt-xor_crypt}
use leo_net.Crc.Check.{crc_fold, IsTable, check_crc32-eq}
use leo_net.Protocol.{AboutCrypt, transform_buffer_to_message}

-- The last four of the `2 + n` bytes of a packet in the clear are the checksum of those before.
abbrev pub genuine : List ℕ → List ℕ → ℕ → Bool
genuine table packet n = word_at packet (n - 2) == crc_fold table 0 (take (n - 2) packet)

-- The word behind the first two bytes is the number expected, masked with the session's key.
abbrev pub in_order : AboutCrypt → List ℕ → Bool
in_order ac packet = bit_xor (word_at packet 2) ac.session_key == ac.sequence_id

-- The keys' record after the packet.
abbrev pub after : List ℕ → AboutCrypt → List ℕ → ℕ → AboutCrypt
after table ac packet n =
    if genuine table packet n && in_order ac packet
    then record ac { sequence_id = add32 ac.sequence_id 1 }
    else ac

-- Counting does not touch the key.
after_key :
    (b : Bool) (ac : AboutCrypt)
    → (if b then record ac { sequence_id = add32 ac.sequence_id 1 } else ac).xor_key ≡ ac.xor_key
after_key true ac = refl
after_key false ac = refl

module _ (table : List ℕ) (valid : IsTable table) (key : List ℕ) (key_bytes : IsBytes key)
    (enough : 16 ≤ length key) (nm : NetMessage) (h₀ h₁ : ℕ) (plain : List ℕ)
    (packet_bytes : IsBytes (h₀ ∷ h₁ ∷ plain)) (n : ℕ) (low : 4 ≤ n) (high : n ≤ length plain)
    (word : 2 + n < 2 ^ 32) where
  checks :
      (ac : AboutCrypt) (mid : List ℕ)
      → ac.xor_key ≡ key
      → xor_decrypt mid n key ≡ some (1, plain)
      → transform_buffer_to_message table ac nm (h₀ ∷ h₁ ∷ mid) n
        ≡ some (0, after table ac (h₀ ∷ h₁ ∷ plain) n, h₀ ∷ h₁ ∷ plain)
  unfolding transform_buffer_to_message
  checks ac mid same decrypts =
      let packet = h₀ ∷ h₁ ∷ plain in
      let sum : add32 2 n ≡ 2 + n = omega arith in
      let cut : 2 + n - 4 ≡ n - 2 = omega arith in
      let checked =
        check_crc32-eq table valid packet packet_bytes (2 + n) (omega arith) (omega arith) word in
      let loaded = load32_lem packet 2 (omega arith) in
      rw (same, decrypts, sum, checked, cut)
        (elim (Bool-cases (genuine table packet n)) [
          | inr wrong ↦ rw wrong refl
          | inl right ↦
              rw (right, loaded)
                (elim (Bool-cases (in_order ac packet)) [
                  | inr stale ↦ rw stale refl
                  | inl fresh ↦ rw fresh refl
                ])
        ])

  -- With a table of the checksum of 256 words or more, while the source declares 255, and
  -- a packet of `2 + n` bytes, four or more behind the first two, those encrypted by `xor_crypt`
  -- with the session's key of at least sixteen bytes: `transform_buffer_to_message` stays inside the
  -- buffer, decrypts it in place, returns 0 in every case, and counts the packet exactly when its
  -- last four bytes are the checksum of those before and its number is the one expected.
  pub transform_buffer_to_message_lem :
      (ac : AboutCrypt)
      → ac.xor_key ≡ key
      → (mid : List ℕ) × (xor_crypt plain n key ≡ some (1, mid))
        × (transform_buffer_to_message table ac nm (h₀ ∷ h₁ ∷ mid) n
            ≡ some (0, after table ac (h₀ ∷ h₁ ∷ plain) n, h₀ ∷ h₁ ∷ plain))
  transform_buffer_to_message_lem ac same =
      let (mid, runs, back) =
        xor_decrypt-xor_crypt key plain n key_bytes enough (λ p. packet_bytes (suc (suc p))) high in
      (mid, runs, checks ac mid same back)

  -- The number expected has changed after a packet that was counted, so it is not counted again.
  after_twice :
      (ac : AboutCrypt)
      → ac.sequence_id < 2 ^ 32
      → after table (after table ac (h₀ ∷ h₁ ∷ plain) n) (h₀ ∷ h₁ ∷ plain) n
        ≡ after table ac (h₀ ∷ h₁ ∷ plain) n
  after_twice ac small =
      let packet = h₀ ∷ h₁ ∷ plain in
      elim (Bool-cases (genuine table packet n)) [
        | inr wrong ↦ rw wrong refl
        | inl right ↦ rw right (elim (Bool-cases (in_order ac packet)) [
          | inr stale ↦ rw (stale, stale) refl
          | inl fresh ↦ rw fresh (
              let expected : bit_xor (word_at packet 2) ac.session_key ≡ ac.sequence_id =
                (==_iff _ _).0 fresh in
              let counted : in_order (record ac { sequence_id = add32 ac.sequence_id 1 }) packet
                  ≡ false =
                ground (arith, expected) in
              rw counted refl)
        ])
      ]

  -- With a table of the checksum of 256 words or more, while the source declares 255, a
  -- packet of `2 + n` bytes, four or more behind the first two, those encrypted with the session's
  -- key of at least sixteen bytes, that is delivered a second time changes nothing in the session's
  -- record, whose number fits 32 bits: no packet is counted twice in a row.
  pub transform_buffer_to_message_replay :
      (ac : AboutCrypt)
      → ac.xor_key ≡ key
      → ac.sequence_id < 2 ^ 32
      → (mid : List ℕ) × (ac' : AboutCrypt) × (transform_buffer_to_message table ac nm
            (h₀ ∷ h₁ ∷ mid)
            n
          ≡ some (0, ac', h₀ ∷ h₁ ∷ plain))
        × (transform_buffer_to_message table ac' nm (h₀ ∷ h₁ ∷ mid) n
            ≡ some (0, ac', h₀ ∷ h₁ ∷ plain))
        × (xor_crypt plain n key ≡ some (1, mid))
  transform_buffer_to_message_replay ac same small =
      let (mid, runs, back) =
        xor_decrypt-xor_crypt key plain n key_bytes enough (λ p. packet_bytes (suc (suc p))) high in
      let packet = h₀ ∷ h₁ ∷ plain in
      let ac' = after table ac packet n in
      let same' : ac'.xor_key ≡ key =
        after_key (genuine table packet n && in_order ac packet) ac ∙ same in
      (
        mid,
        ac',
        checks ac mid same back,
        checks ac' mid same' back ∙ ap (λ s. some (0, s, packet)) (after_twice ac small),
        runs,
      )
