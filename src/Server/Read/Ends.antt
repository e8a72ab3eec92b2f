-- ===== src/Server/Read/Ends.antt =====
-- The loop of `on_read` (src/main.c) comes to its end, or to an access that is not allowed: every
-- packet moves the read pointer on.
use leo_net.Base.{
  ℕ, zero, suc, ◌+◌, ◌^◌, ◌<◌, ◌≤◌, ◌≡◌, ◌⊎◌, ◌∙◌, refl, sym, ap, Bool, true, false, not,
  Bool-cases, inl, inr, Option, none, some, some-injective, some_bind, List, ◌++◌, arith, ltb, ◌==◌,
  ◌>>=◌, if◌then◌else◌, bit_xor, add32,
}
use std.Path.{subst}
use leo_net.Base.Lists.{length, take, drop, length-append, length-take, length-drop}
use leo_net.Base.Endian.{load32}
use leo_net.Message.{NetMessage, new_message}
use leo_net.Ring.{RingBuffer, used, read_at, seek_read}
use leo_net.Ring.Valid.{IsValid, size_bounds}
use leo_net.Ring.Advance.{read_on, read_on-IsValid, used-read_on}
use leo_net.Queue.{push_back}
use leo_net.Xor.{xor_decrypt}
use leo_net.Xor.Length.{length-xor_decrypt}
use leo_net.Crc.{check_crc32}
use leo_net.Crc.Check.{check_crc32_short}
use leo_net.Protocol.{AboutCrypt, transform_buffer_to_message}
use leo_net.Server.{NetSession, max_queue_len}
use leo_net.Server.Read.{read_loop, take_packet}
use leo_net.Server.Read.Rounds.{announced, read_loop_lem}

-- A packet that is taken leaves a buffer of the same length, and has at least one byte.
module _ (table : List ℕ) (ac : AboutCrypt) (nm : NetMessage) (buf : List ℕ)
    (small : length buf < 2 ^ 32) where
  length_decrypted :
      (dec : List ℕ) → length dec ≡ length (drop 2 buf) → length (take 2 buf ++ dec) ≡ length buf
  length_decrypted dec e =
      omega (arith, e, length-append (take 2 buf) dec, length-take 2 buf, length-drop 2 buf)

  transform_shape :
      (n : ℕ) (r : ℕ × AboutCrypt × List ℕ)
      → transform_buffer_to_message table ac nm buf n ≡ some r
      → (length r.2 ≡ length buf) × (0 < n)
  unfolding transform_buffer_to_message
  transform_shape n r e =
      let (dec, e₁, f₁) = some_bind (xor_decrypt (drop 2 buf) n ac.xor_key) _ r e in
      let buf' = take 2 buf ++ dec.1 in
      let same : length buf' ≡ length buf =
        length_decrypted dec.1 (length-xor_decrypt (drop 2 buf) n ac.xor_key dec e₁) in
      let (checked, e₂, f₂) = some_bind (check_crc32 table buf' (add32 2 n)) _ r f₁ in
      let kept : r.2 ≡ buf' = elim (Bool-cases (checked == 0)) [
        | inl wrong ↦ ap (λ x. x.2) (sym (some-injective _ _ (rw wrong at f₂)))
        | inr right ↦
            let g : _ ≡ some r = rw right at f₂ in
            let (sequence_id, e₃, f₃) = some_bind (load32 buf' 2) _ r g in
            elim (Bool-cases (not (bit_xor sequence_id ac.session_key == ac.sequence_id))) [
              | inl stale ↦ ap (λ x. x.2) (sym (some-injective _ _ (rw stale at f₃)))
              | inr fresh ↦ ap (λ x. x.2) (sym (some-injective _ _ (rw fresh at f₃)))
            ]
      ] in
      let some_byte : 0 < n = elim (Bool-cases (ltb 0 n)) [
        | inl more ↦ ground arith
        | inr nothing ↦
            let short =
              check_crc32_short table buf' (add32 2 n) (ground arith) (omega (arith, same)) in
            absurd (ground (arith, sym short ∙ e₂))
      ] in
      (ap length kept ∙ same, some_byte)

-- A ring whose storage is replaced by one of the same length is as valid, and holds as much.
pub rewritten-IsValid :
    {r : RingBuffer} (m : List ℕ)
    → IsValid r
    → length m ≡ length r.ring_buffer
    → IsValid (record r { ring_buffer = m })
rewritten-IsValid m v e = record {
  exponent = v.exponent;
  power = v.power;
  small = v.small;
  storage = e ∙ v.storage;
  write_word = v.write_word;
  read_word = v.read_word;
  held = v.held;
}

-- The loop has met an access that is not allowed, or has come to its end with a valid read buffer
-- of at most `most` bytes.
pub Ended : ℕ → Option (Bool × NetSession) → Type 0
Ended most run =
    (run ≡ none)
    ⊎ ((s' : NetSession) × (run ≡ some (true, s'))
        × IsValid s'.read_buffer
        × (used s'.read_buffer ≤ most))

Ended-if :
    (most : ℕ) (b : Bool) (x y : Option (Bool × NetSession))
    → Ended most x
    → Ended most y
    → Ended most (if b then x else y)
Ended-if most true x y p q = p
Ended-if most false x y p q = q

Ended-bind :
    (most : ℕ) (o : Option NetSession) (k : NetSession → Option (Bool × NetSession))
    → ((s : NetSession) → o ≡ some s → Ended most (k s))
    → Ended most (o >>= k)
unfolding Ended
Ended-bind most none k h = inl refl
Ended-bind most (some s) k h = h s refl

Ended-weaken :
    (few most : ℕ) (run : Option (Bool × NetSession)) → few ≤ most → Ended few run → Ended most run
unfolding Ended
Ended-weaken few most run h (inl bad) = inl bad
Ended-weaken few most run h (inr (s', ends, valid, left)) =
    inr (s', ends, valid, omega (arith, h, left))

module _ (table : List ℕ) (allocated : Bool) where
  pub take_packet_lem :
      (n : ℕ) (s s' : NetSession)
      → IsValid s.read_buffer
      → n ≤ used s.read_buffer
      → take_packet table allocated n s ≡ some s'
      → IsValid s'.read_buffer × (used s'.read_buffer + n ≡ used s.read_buffer) × (0 < n)
  unfolding take_packet seek_read
  take_packet_lem n s s' v enough e =
      let rb = s.read_buffer in
      let at = read_at rb in
      let bounds = size_bounds v in
      let storage = v.storage in
      let (checked, e₁, f₁) =
        some_bind (transform_buffer_to_message table s.crypt new_message (drop at rb.ring_buffer) n)
          _ s' e in
      let (same, some_byte) =
        transform_shape table s.crypt new_message (drop at rb.ring_buffer)
          (omega (arith, length-drop at rb.ring_buffer)) n checked e₁ in
      let m = take at rb.ring_buffer ++ checked.2 in
      let whole : length m ≡ length rb.ring_buffer = omega (
        arith,
        length-append (take at rb.ring_buffer) checked.2,
        same,
        length-take at rb.ring_buffer,
        length-drop at rb.ring_buffer,
      ) in
      let v' = rewritten-IsValid {r = rb} m v whole in
      let (pushed, e₂, f₂) =
        some_bind (push_back max_queue_len s.read_queue (some new_message)) _ s' f₁ in
      let rb' = record rb { ring_buffer = m } in
      let moved : ltb (used rb') n ≡ false = ground arith in
      let after = rw moved at f₂ in
      let left : read_on {r = rb'} v' n ≡ s'.read_buffer =
        ap (λ x. x.read_buffer) (some-injective _ _ after) in
      (
        subst IsValid left (read_on-IsValid {r = rb'} v' n enough),
        omega (arith, ap used left, used-read_on {r = rb'} v' n enough),
        some_byte,
      )

  -- On a session whose read buffer is valid the loop of `on_read` does not run out of fuel when it has
  -- more rounds than the buffer holds bytes: it meets an access that is not allowed, or comes to its
  -- end with a valid read buffer that holds no more than before.
  pub read_loop_ends :
      (fuel : ℕ) (s : NetSession)
      → IsValid s.read_buffer
      → used s.read_buffer < fuel
      → Ended (used s.read_buffer) (read_loop table allocated fuel s)
  unfolding Ended
  read_loop_ends zero s v h = absurd (omega (arith, h))
  read_loop_ends (suc fuel) s v h =
      let n = used s.read_buffer in
      elim (read_loop_lem table allocated s v fuel) [
        | inl (few, ends) ↦ inr (s, ends, v, omega arith)
        | inr (two, whole, goes) ↦
            let next : (s' : NetSession)
                → take_packet table allocated (announced s) s ≡ some s'
                → Ended n (read_loop table allocated fuel s') =
              λ s' e.
                let (v', less, some_byte) = take_packet_lem (announced s) s s' v whole e in
                Ended-weaken (used s'.read_buffer) n _ (omega (arith, less))
                  (read_loop_ends fuel s' v' (omega (arith, less, some_byte, h))) in
            subst (Ended n) (sym goes) (
              Ended-if n allocated _ _
                (Ended-bind n (take_packet table allocated (announced s) s) _ next)
                (inr (s, refl, v, omega arith)))
      ]
