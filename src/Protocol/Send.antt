-- ===== src/Protocol/Send.antt =====
-- What `transform_message_to_buffer` (src/leo_tcp_game_protocol.c) puts into the buffer.
use leo_net.Base.{
  ◌⊎◌, inl, inr, Bool-cases, ltb→lt, ◌∙◌, ap, false, ◌%◌, ◌/◌, ◌*◌, ℕ, zero, suc, ◌+◌, ◌-◌, ◌^◌,
  ◌≤◌, ◌<◌, ◌≡◌, refl, some, List, [], ◌∷◌, ◌++◌, ltb, arith,
}
use leo_net.Base.Lists.{drop-add}
use leo_net.Base.Lists.{length, take, drop, length-append, length-take, get_or-take, get_or-drop}
use leo_net.Base.Memory.{load_block, store_block, load_block_lem, store_block_lem, slice, splice}
use leo_net.Base.Endian.{IsBytes, bytes2, store16, append-IsBytes}
use leo_net.Message.{NetMessage}
use leo_net.Message.Pops.{IsValid}
use leo_net.Xor.{xor_decrypt}
use leo_net.Xor.Laws.{xor_decrypt-xor_crypt}
use leo_net.Protocol.{AboutCrypt, transform_message_to_buffer}

-- A message in the clear, behind the two bytes for the length.
abbrev pub clear_text : NetMessage → List ℕ
clear_text nm = bytes2 nm.id ++ (bytes2 nm.real_size ++ take nm.real_size nm.buffer)

bytes2-IsBytes : (w : ℕ) → IsBytes (bytes2 w)
bytes2-IsBytes w zero = omega arith
bytes2-IsBytes w (suc zero) = omega arith
bytes2-IsBytes w (suc (suc p)) = omega arith

-- The three stores put the identifier, the size and the bytes behind the first two.
module _ (h₀ h₁ a b c d : ℕ) (rest : List ℕ) where
  store_id :
      (id : ℕ)
      → store16 (h₀ ∷ h₁ ∷ a ∷ b ∷ c ∷ d ∷ rest) 2 id
        ≡ some (h₀ ∷ h₁ ∷ (bytes2 id ++ (c ∷ d ∷ rest)))
  unfolding store16 splice
  store_id id = store_block_lem (h₀ ∷ h₁ ∷ a ∷ b ∷ c ∷ d ∷ rest) 2 (bytes2 id) (omega arith)

  store_size :
      (size : ℕ)
      → store16 (h₀ ∷ h₁ ∷ a ∷ b ∷ c ∷ d ∷ rest) 4 size
        ≡ some (h₀ ∷ h₁ ∷ a ∷ b ∷ (bytes2 size ++ rest))
  unfolding store16 splice
  store_size size = store_block_lem (h₀ ∷ h₁ ∷ a ∷ b ∷ c ∷ d ∷ rest) 4 (bytes2 size) (omega arith)

  store_bytes :
      (bytes : List ℕ)
      → length bytes ≤ length rest
      → store_block (h₀ ∷ h₁ ∷ a ∷ b ∷ c ∷ d ∷ rest) 6 bytes
        ≡ some (h₀ ∷ h₁ ∷ a ∷ b ∷ c ∷ d ∷ (bytes ++ drop (length bytes) rest))
  unfolding splice
  store_bytes bytes fits =
      store_block_lem (h₀ ∷ h₁ ∷ a ∷ b ∷ c ∷ d ∷ rest) 6 bytes (omega arith)
      ∙ ap (λ t. some (h₀ ∷ h₁ ∷ a ∷ b ∷ c ∷ d ∷ (bytes ++ t)))
          (drop-add 6 (length bytes) (h₀ ∷ h₁ ∷ a ∷ b ∷ c ∷ d ∷ rest))

-- What the buffer holds for the client: the first two bytes as they were, and behind them what
-- decrypts to the message in the clear and the old bytes after it.
pub record Sent (ac : AboutCrypt) (nm : NetMessage) (buf out : List ℕ) : Type 0 where
  pub prefix : take 2 out ≡ take 2 buf
  pub decrypts :
      xor_decrypt (drop 2 out) (4 + nm.real_size) ac.xor_key
      ≡ some (1, clear_text nm ++ drop (6 + nm.real_size) buf)

module _ (ac : AboutCrypt) (key_bytes : IsBytes ac.xor_key) (enough : 16 ≤ length ac.xor_key)
    (nm : NetMessage) (valid : IsValid nm) (bytes : IsBytes nm.buffer) where
  sent_framed :
      (h₀ h₁ a b c d : ℕ) (rest : List ℕ) (buf_len : ℕ)
      → IsBytes rest
      → nm.real_size ≤ length rest
      → 6 + nm.real_size ≤ buf_len
      → (out : List ℕ) × (transform_message_to_buffer ac nm (h₀ ∷ h₁ ∷ a ∷ b ∷ c ∷ d ∷ rest) buf_len
          ≡ some (6 + nm.real_size, out))
        × Sent ac nm (h₀ ∷ h₁ ∷ a ∷ b ∷ c ∷ d ∷ rest) out
  unfolding transform_message_to_buffer slice
  sent_framed h₀ h₁ a b c d rest buf_len rest_bytes fits room =
      let n = nm.real_size in
      let piece = take n nm.buffer in
      let whole = valid.whole in
      let inside = valid.inside in
      let count : length piece ≡ n = omega (arith, length-take n nm.buffer) in
      let load : load_block nm.buffer 0 n ≡ some piece =
        load_block_lem nm.buffer 0 n (omega arith) in
      let i = nm.id in
      let guard : ltb buf_len (3 * 2 + n) ≡ false = ground arith in
      let body = bytes2 i ++ (bytes2 n ++ (piece ++ drop n rest)) in
      let crypts =
        xor_decrypt-xor_crypt ac.xor_key body (4 + n) key_bytes enough
          (append-IsBytes (bytes2 i) (bytes2 n ++ (piece ++ drop n rest)) (bytes2-IsBytes i) (
            append-IsBytes (bytes2 n) (piece ++ drop n rest) (bytes2-IsBytes n) (
              append-IsBytes piece (drop n rest)
                (λ p. ground (arith, get_or-take n nm.buffer p 0, bytes p))
                (λ p. ground (arith, get_or-drop n rest p (n + p) 0 refl, rest_bytes (n + p))))))
          (omega (arith, length-append piece (drop n rest), count)) in
      let (mid, runs, back) = crypts in
      let stored =
        store_bytes h₀ h₁ (i % 2 ^ 8) (i / 2 ^ 8 % 2 ^ 8) (n % 2 ^ 8) (n / 2 ^ 8 % 2 ^ 8) rest piece
          (omega (arith, count)) in
      let cut : 6 + n - 2 ≡ 4 + n = omega arith in
      (
        h₀ ∷ h₁ ∷ mid,
        rw
            (
              guard,
              store_id h₀ h₁ a b c d rest i,
              store_size h₀ h₁ (i % 2 ^ 8) (i / 2 ^ 8 % 2 ^ 8) c d rest n,
              load,
              stored,
              count,
              cut,
              runs,
            )
            refl,
        record {
          prefix = refl;
          decrypts = rw (drop-add 6 n (h₀ ∷ h₁ ∷ a ∷ b ∷ c ∷ d ∷ rest)) back;
        },
      )

  sent :
      (buf : List ℕ) (buf_len : ℕ)
      → IsBytes buf
      → buf_len ≤ length buf
      → 6 + nm.real_size ≤ buf_len
      → (out : List ℕ) × (transform_message_to_buffer ac nm buf buf_len
          ≡ some (6 + nm.real_size, out))
        × Sent ac nm buf out
  sent (h₀ ∷ h₁ ∷ a ∷ b ∷ c ∷ d ∷ rest) buf_len buf_bytes inside room =
      sent_framed h₀ h₁ a b c d rest buf_len (λ p. buf_bytes (suc (suc (suc (suc (suc (suc p)))))))
        (omega arith) room
  sent [] buf_len buf_bytes inside room = absurd (omega arith)
  sent (_ ∷ []) buf_len buf_bytes inside room = absurd (omega arith)
  sent (_ ∷ _ ∷ []) buf_len buf_bytes inside room = absurd (omega arith)
  sent (_ ∷ _ ∷ _ ∷ []) buf_len buf_bytes inside room = absurd (omega arith)
  sent (_ ∷ _ ∷ _ ∷ _ ∷ []) buf_len buf_bytes inside room = absurd (omega arith)
  sent (_ ∷ _ ∷ _ ∷ _ ∷ _ ∷ []) buf_len buf_bytes inside room = absurd (omega arith)

  -- With a key of at least sixteen bytes, a valid message and `buf_len` within the buffer,
  -- `transform_message_to_buffer` either has less room than six bytes and the data, returns 0 and
  -- changes nothing, or returns six more than the data's size and leaves a buffer whose first two
  -- bytes are the old ones and which decrypts behind them to the identifier, the size, the data and
  -- the old bytes after it.
  pub transform_message_to_buffer_lem :
      (buf : List ℕ) (buf_len : ℕ)
      → IsBytes buf
      → buf_len ≤ length buf
      → ((buf_len < 6 + nm.real_size)
          × (transform_message_to_buffer ac nm buf buf_len ≡ some (0, buf)))
        ⊎ ((6 + nm.real_size ≤ buf_len)
            × ((out : List ℕ) × (transform_message_to_buffer ac nm buf buf_len
                  ≡ some (6 + nm.real_size, out))
                × Sent ac nm buf out))
  unfolding transform_message_to_buffer
  transform_message_to_buffer_lem buf buf_len buf_bytes inside =
      elim (Bool-cases (ltb buf_len (6 + nm.real_size))) [
        | inl short ↦ inl (ltb→lt _ _ short, rw short refl)
        | inr room ↦
            let fits : 6 + nm.real_size ≤ buf_len = ground arith in
            inr (fits, sent buf buf_len buf_bytes inside fits)
      ]
