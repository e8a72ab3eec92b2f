-- ===== src/Server/Read/Packet.antt =====
-- What `on_read` (src/main.c) does with a packet that lies in the read buffer: it hands the pointer to
-- its first byte to `transform_buffer_to_message` (src/leo_tcp_game_protocol.c).
use leo_net.Base.{
  ℕ, ◌+◌, ◌≤◌, ◌<◌, ◌≡◌, ◌∙◌, refl, sym, ap, Bool, false, Option, Option-cases, inl, inr, none,
  some, some-injective, List, [], ◌∷◌, ◌++◌, ltb, arith, if◌then◌else◌,
}
use leo_net.Base.Lists.{
  length, take, drop, get_or-take, get_or-drop, length-append, length-take, length-drop, drop-part,
}
use leo_net.Base.Endian.{IsBytes}
use leo_net.Message.{NetMessage, new_message}
use leo_net.Ring.{RingBuffer, used, read_at, seek_read}
use leo_net.Ring.Window.{window_ext}
use leo_net.Ring.Valid.{IsValid, contents, size_bounds, read_at-lt}
use leo_net.Ring.Advance.{read_on, contents-read_on}
use leo_net.Queue.Valid
use leo_net.Queue.Fifo.{push_back_lem}
use leo_net.Xor.{xor_crypt, xor_decrypt}
use leo_net.Xor.Length.{length-xor_crypt, xor_decrypt-inside}
use leo_net.Crc.Check.{IsTable}
use leo_net.Protocol.{transform_buffer_to_message}
use leo_net.Protocol.Receive.{after, transform_buffer_to_message_lem}
use leo_net.Server.{NetSession, max_queue_len}
use leo_net.Server.Read.{take_packet}
use leo_net.Server.Read.Ends.{rewritten-IsValid}

module _ (table : List ℕ) (allocated : Bool) (n : ℕ) (s : NetSession)
    (valid : IsValid s.read_buffer) where
  -- On a valid read buffer, a packet of `2 + n` bytes, `n` not 0, that goes round the end of the read buffer's storage is decrypted past
  -- that end, an access out of range, even if all of it has come in.
  pub take_packet_wrapped :
      0 < n
      → s.read_buffer.buffer_size < read_at s.read_buffer + (2 + n)
      → take_packet table allocated n s ≡ none
  unfolding take_packet transform_buffer_to_message
  take_packet_wrapped more beyond =
      let rb = s.read_buffer in
      let buf = drop 2 (drop (read_at rb) rb.ring_buffer) in
      let at = read_at-lt valid in
      let storage = valid.storage in
      let short : length buf < n = omega (
        arith,
        length-drop 2 (drop (read_at rb) rb.ring_buffer),
        length-drop (read_at rb) rb.ring_buffer,
      ) in
      let outside : xor_decrypt buf n s.crypt.xor_key ≡ none =
        elim (Option-cases (xor_decrypt buf n s.crypt.xor_key)) [
          | inl fails ↦ fails
          | inr (r, goes) ↦
              absurd (omega (arith, short, xor_decrypt-inside buf n s.crypt.xor_key r goes))
        ] in
      rw outside refl

-- A ring whose contents do not go round the end holds them in one piece.
contents-straight :
    {r : RingBuffer}
    → IsValid r
    → read_at r + used r ≤ r.buffer_size
    → contents r ≡ take (used r) (drop (read_at r) r.ring_buffer)
unfolding contents
contents-straight {r} v fits = sym (
    window_ext r.ring_buffer r.buffer_size (read_at r) (used r) _
      (omega (
        arith,
        length-take (used r) (drop (read_at r) r.ring_buffer),
        length-drop (read_at r) r.ring_buffer,
        v.storage,
      ))
      λ i h. ground (
        arith,
        get_or-take (used r) (drop (read_at r) r.ring_buffer) i 0,
        get_or-drop (read_at r) r.ring_buffer i (read_at r + i) 0 refl,
      ))

-- The messages in the read queue, oldest first.
abbrev pub received : NetSession → List (Option NetMessage)
received s = Valid.contents none max_queue_len s.read_queue

-- What is left of the read buffer's contents after a packet of `n` bytes is replaced by its plain text.
module _ {table : List ℕ} (is_table : IsTable table) (allocated : Bool) (n : ℕ) (s : NetSession)
    (valid : IsValid s.read_buffer) (queue : Valid.IsValid max_queue_len s.read_queue)
    (key_bytes : IsBytes s.crypt.xor_key) (key_long : 16 ≤ length s.crypt.xor_key) (h₀ h₁ : ℕ)
    (plain mid : List ℕ) (bytes : IsBytes (h₀ ∷ h₁ ∷ plain)) (low : 4 ≤ n) (high : n ≤ length plain)
    (there : drop (read_at s.read_buffer) s.read_buffer.ring_buffer ≡ h₀ ∷ h₁ ∷ mid)
    (secret : xor_crypt plain n s.crypt.xor_key ≡ some (1, mid)) (whole : n ≤ used s.read_buffer)
    (straight : read_at s.read_buffer + used s.read_buffer ≤ s.read_buffer.buffer_size) where
  -- With a table of the checksum of 256 words or more, while the source declares 255: when
  -- the bytes from the read pointer of a valid session on are a two-byte header and four or more
  -- bytes encrypted with the session's key of at least sixteen bytes, and the contents do not go
  -- round the end of the storage, `on_read` takes a packet of `n` bytes: it counts the packet
  -- as `transform_buffer_to_message` does, queues an empty message if there is room, and moves on
  -- by `n` bytes of the decrypted packet, header included, so that the last two of its `2 + n`
  -- bytes stay in front of what comes next.
  pub take_packet_taken :
      let room = ltb (length (received s)) max_queue_len in
      (s' : NetSession) × (take_packet table allocated n s ≡ some s')
      × (s'.crypt ≡ after table s.crypt (h₀ ∷ h₁ ∷ plain) n)
      × (received s' ≡ (if room then received s ++ (some new_message ∷ []) else received s))
      × (contents s'.read_buffer ≡ drop n (take (used s.read_buffer) (h₀ ∷ h₁ ∷ plain)))
  unfolding take_packet seek_read read_at
  take_packet_taken =
      let rb = s.read_buffer in
      let at = read_at rb in
      let packet = h₀ ∷ h₁ ∷ plain in
      let inside = read_at-lt valid in
      let bounds = size_bounds valid in
      let storage = valid.storage in
      let (mid', runs, tells) =
        transform_buffer_to_message_lem table is_table s.crypt.xor_key key_bytes key_long
          new_message h₀ h₁ plain bytes n low high (omega (arith, valid.held)) s.crypt refl in
      let same : mid ≡ mid' = ap (λ x. x.1) (some-injective _ _ (sym secret ∙ runs)) in
      let transformed : transform_buffer_to_message table s.crypt new_message
            (drop at rb.ring_buffer) n
          ≡ some (0, after table s.crypt packet n, packet) =
        ap (λ b. transform_buffer_to_message table s.crypt new_message b n)
          (there ∙ ap (λ m. h₀ ∷ h₁ ∷ m) same)
        ∙ tells in
      let (q, pushes, _, queued, _) = push_back_lem none queue (some new_message) in
      let before = length-take at rb.ring_buffer in
      let m = take at rb.ring_buffer ++ packet in
      let kept : length m ≡ length rb.ring_buffer = omega (
        arith,
        length-append (take at rb.ring_buffer) packet,
        before,
        length-drop at rb.ring_buffer,
        ap length there,
        length-xor_crypt plain n s.crypt.xor_key (1, mid) secret,
      ) in
      let rb' = record rb { ring_buffer = m } in
      let valid' = rewritten-IsValid {r = rb} m valid kept in
      let moved : ltb (used rb') n ≡ false = ground arith in
      let piece : drop at m ≡ packet =
        drop-part (take at rb.ring_buffer) packet at (omega (arith, before)) in
      (
        record s {
          crypt = after table s.crypt packet n;
          read_buffer = read_on valid' n;
          read_queue = q;
        },
        rw (transformed, pushes, moved) refl,
        refl,
        queued,
        contents-read_on valid' n whole
            ∙ ap (drop n) (contents-straight valid' straight ∙ ap (take (used rb)) piece),
      )
