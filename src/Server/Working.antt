-- ===== src/Server/Working.antt =====
-- What holds of a session (src/leo_net_session.h) between two events, and that the handlers `on_read`
-- and `on_write` (src/main.c) keep it.
use leo_net.Base.{
  ℕ, zero, suc, ◌≤◌, ◌≡◌, ◌∙◌, refl, sym, ap, Bool, true, false, not, Bool-cases, ◌⊎◌, inl, inr,
  none, some, some-injective, some_bind, List, ◌++◌, arith, ltb, ◌==◌, if◌then◌else◌, bit_xor,
  add32,
}
use std.Path.{subst}
use leo_net.Base.Lists.{length, take, drop}
use leo_net.Base.Endian.{IsBytes, load32}
use leo_net.Base.Memory.{load_block, store_block, length-store_block}
use leo_net.Message.{NetMessage, new_message}
use leo_net.Ring.{RingBuffer, available, used, read_at, write_at, seek_write}
use leo_net.Ring.Valid
use leo_net.Queue.Valid.{IsValid}
use leo_net.Queue.{push_back}
use leo_net.Queue.Fifo.{push_back_lem}
use leo_net.Xor.{xor_decrypt}
use leo_net.Crc.{check_crc32}
use leo_net.Protocol.{AboutCrypt, transform_buffer_to_message}
use leo_net.Protocol.Key.Sent.{IsKeys}
use leo_net.Server.{NetSession, max_queue_len, write_loop, send_buffer, write_session}
use leo_net.Server.Session.Calls.{IsSession, parts-IsSession}
use leo_net.Server.Read.{read_loop, take_packet, read_session}
use leo_net.Server.Read.Rounds.{announced, read_loop_lem}
use leo_net.Ring.Advance.{write_on-IsValid}
use leo_net.Server.Read.Ends.{take_packet_lem, rewritten-IsValid}
use leo_net.Server.Write.{queued, List-cases, fetch_nothing, fetch_oldest}

-- The buffers and queues are valid, the keys stand in arrays of their lengths.
pub record IsWorking (s : NetSession) : Type 0 where
  pub session : IsSession s
  pub keys : IsKeys s.crypt

-- A packet changes no key.
module _ (table : List ℕ) (ac : AboutCrypt) (nm : NetMessage) (buf : List ℕ) where
  IsSame : AboutCrypt → Type 0
  IsSame ac' = (ac'.xor_key ≡ ac.xor_key) × (ac'.swap_key ≡ ac.swap_key)

  transform_keys :
      (n : ℕ) (r : ℕ × AboutCrypt × List ℕ)
      → transform_buffer_to_message table ac nm buf n ≡ some r
      → IsSame r.1
  unfolding transform_buffer_to_message IsSame
  transform_keys n r e =
      let (dec, e₁, f₁) = some_bind (xor_decrypt (drop 2 buf) n ac.xor_key) _ r e in
      let buf' = take 2 buf ++ dec.1 in
      let (checked, e₂, f₂) = some_bind (check_crc32 table buf' (add32 2 n)) _ r f₁ in
      elim (Bool-cases (checked == 0)) [
        | inl wrong ↦
            let same = some-injective _ _ (rw wrong at f₂) in
            subst (λ x. IsSame x.1) same (refl, refl)
        | inr right ↦
            let g : _ ≡ some r = rw right at f₂ in
            let (sequence_id, e₃, f₃) = some_bind (load32 buf' 2) _ r g in
            elim (Bool-cases (not (bit_xor sequence_id ac.session_key == ac.sequence_id))) [
              | inl stale ↦
                  let same = some-injective _ _ (rw stale at f₃) in
                  subst (λ x. IsSame x.1) same (refl, refl)
              | inr fresh ↦
                  let same = some-injective _ _ (rw fresh at f₃) in
                  subst (λ x. IsSame x.1) same (refl, refl)
            ]
      ]

if_cases {ℓ} : {A : Type ℓ} (b : Bool) (x y z : A) → (if b then x else y) ≡ z → (x ≡ z) ⊎ (y ≡ z)
if_cases true x y z e = inl e
if_cases false x y z e = inr e

same_keys-IsKeys :
    {ac ac' : AboutCrypt}
    → ac'.xor_key ≡ ac.xor_key
    → ac'.swap_key ≡ ac.swap_key
    → IsKeys ac
    → IsKeys ac'
same_keys-IsKeys x s k = record {
  xor_long = ap length x ∙ k.xor_long;
  swap_long = ap length s ∙ k.swap_long;
  xor_bytes = subst IsBytes (sym x) k.xor_bytes;
  swap_bytes = subst IsBytes (sym s) k.swap_bytes;
}

module _ (table : List ℕ) (allocated : Bool) where
  take_packet-IsWorking :
      (n : ℕ) (s s' : NetSession)
      → IsWorking s
      → n ≤ used s.read_buffer
      → take_packet table allocated n s ≡ some s'
      → IsWorking s'
  unfolding take_packet IsSame
  take_packet-IsWorking n s s' w enough e =
      let rb = s.read_buffer in
      let (ring, _, _) = take_packet_lem table allocated n s s' w.session.read_ring enough e in
      let (checked, e₁, f₁) =
        some_bind
          (transform_buffer_to_message table s.crypt new_message (drop (read_at rb) rb.ring_buffer)
            n)
          _ s' e in
      let (xs, ss) =
        transform_keys table s.crypt new_message (drop (read_at rb) rb.ring_buffer) n checked e₁ in
      let (pushed, e₂, f₂) =
        some_bind (push_back max_queue_len s.read_queue (some new_message)) _ s' f₁ in
      let (q, runs, valid, _, _) = push_back_lem none w.session.read_messages (some new_message) in
      let end = some-injective _ _ f₂ in
      let same_queue : q ≡ s'.read_queue =
        ap (λ x. x.1) (some-injective _ _ (sym runs ∙ e₂)) ∙ ap (λ x. x.read_queue) end in
      let same_crypt = ap (λ x. x.crypt) end in
      record {
        session =
            parts-IsSession ring
              (subst Valid.IsValid (ap (λ x. x.write_buffer) end) w.session.write_ring)
              (subst (IsValid max_queue_len) same_queue valid)
              (subst (IsValid max_queue_len) (ap (λ x. x.write_queue) end)
                w.session.write_messages);
        keys = subst IsKeys same_crypt (same_keys-IsKeys xs ss w.keys);
      }

  read_loop-IsWorking :
      (fuel : ℕ) (s : NetSession)
      → IsWorking s
      → (r : Bool × NetSession) → read_loop table allocated fuel s ≡ some r
      → IsWorking r.1
  unfolding read_loop
  read_loop-IsWorking zero s w r e = subst (λ x. IsWorking x.1) (some-injective _ _ e) w
  read_loop-IsWorking (suc fuel) s w r e =
      elim (read_loop_lem table allocated s w.session.read_ring fuel) [
        | inl (few, ends) ↦ subst (λ x. IsWorking x.1) (some-injective _ _ (sym ends ∙ e)) w
        | inr (two, whole, goes) ↦ elim (if_cases allocated _ _ _ (sym goes ∙ e)) [
          | inl given ↦
              let (s', takes, rest) =
                some_bind (take_packet table allocated (announced s) s)
                  (read_loop table allocated fuel) r given in
              read_loop-IsWorking fuel s' (take_packet-IsWorking (announced s) s s' w whole takes) r
                rest
          | inr failed ↦ subst (λ x. IsWorking x.1) (some-injective _ _ failed) w
        ]
      ]

received-IsValid :
    {r : RingBuffer} (memory : List ℕ) (n : ℕ)
    → Valid.IsValid r
    → length memory ≡ length r.ring_buffer
    → Valid.IsValid (seek_write (record r { ring_buffer = memory }) n).1
unfolding seek_write
received-IsValid {r} memory n v e =
    elim (Bool-cases (ltb (available (record r { ring_buffer = memory })) n)) [
      | inl full ↦ rw full (rewritten-IsValid memory v e)
      | inr room ↦ rw room (write_on-IsValid v n memory (e ∙ v.storage) (ground arith))
    ]

module _ (table : List ℕ) (allocated : Bool) (fuel : ℕ) (recv : ℕ → List ℕ) where
  -- `on_read` on one session.
  pub read_session-IsWorking :
      (s : NetSession)
      → IsWorking s
      → (r : Bool × NetSession) → read_session table allocated fuel recv s ≡ some r
      → IsWorking r.1
  unfolding read_session
  read_session-IsWorking s w r e =
      let rb = s.read_buffer in
      let bytes = recv (available rb) in
      elim (if_cases (ltb 0 (length bytes)) _ _ _ e) [
        | inl some_bytes ↦
            let (memory, stores, rest) =
              some_bind (store_block rb.ring_buffer (write_at rb) bytes) _ r some_bytes in
            let same = length-store_block rb.ring_buffer (write_at rb) bytes memory stores in
            let received = (seek_write (record rb { ring_buffer = memory }) (length bytes)).1 in
            let valid = received-IsValid {r = rb} memory (length bytes) w.session.read_ring same in
            read_loop-IsWorking table allocated fuel (record s { read_buffer = received })
              (record {
                session =
                    parts-IsSession valid w.session.write_ring w.session.read_messages
                      w.session.write_messages;
                keys = w.keys;
              })
              r rest
        | inr nothing ↦ subst (λ x. IsWorking x.1) (some-injective _ _ nothing) w
      ]

-- The loop of `on_write` that comes to its end has found the queue empty.
write_loop_same :
    (fuel : ℕ) (s : NetSession)
    → IsWorking s
    → (r : Bool × NetSession) → write_loop fuel none s ≡ some r
    → s ≡ r.1
unfolding write_loop
write_loop_same zero s w r e = ap (λ x. x.1) (some-injective _ _ e)
write_loop_same (suc fuel) s w r e =
    let valid = w.session.write_messages in
    elim (List-cases (queued s)) [
      | inl nothing ↦
          let ends : write_loop (suc fuel) none s ≡ some (true, s) =
            rw (fetch_nothing s valid none nothing) refl in
          ap (λ x. x.1) (some-injective _ _ (sym ends ∙ e))
      | inr (oldest, rest, more) ↦
          let (s', runs, others) = fetch_oldest s valid none oldest rest more in
          let fails : write_loop (suc fuel) none s ≡ none = rw runs refl in
          absurd (ground (arith, sym fails ∙ e))
    ]

module _ (fuel : ℕ) (send : List ℕ → ℕ) where
  -- `on_write` on one session.
  pub write_session-IsWorking :
      (s : NetSession)
      → IsWorking s
      → (r : Bool × Bool × NetSession) → write_session fuel send s ≡ some r
      → IsWorking r.2
  unfolding write_session send_buffer
  write_session-IsWorking s w r e =
      let (looped, loops, rest) = some_bind (write_loop fuel none s) _ r e in
      let same = write_loop_same fuel s w looped loops in
      elim (if_cases looped.0 _ _ _ rest) [
        | inl ended ↦
            let (sent, sends, returns) = some_bind (send_buffer send looped.1) _ r ended in
            let (bytes, loads, keeps) =
              some_bind
                (load_block looped.1.write_buffer.ring_buffer (read_at looped.1.write_buffer)
                  (used looped.1.write_buffer))
                _ sent sends in
            subst IsWorking
              (same
                ∙ (ap (λ x. x.1) (some-injective _ _ keeps)
                    ∙ ap (λ x. x.2) (some-injective _ _ returns)))
              w
        | inr going ↦ subst IsWorking (same ∙ ap (λ x. x.2) (some-injective _ _ going)) w
      ]
