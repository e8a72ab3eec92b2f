-- ===== src/Server/Session/Built.antt =====
-- A session (src/leo_net_session.cpp) as its constructor leaves it.
use leo_net.Base.{
  ℕ, ◌≤◌, ◌≡◌, refl, ap, ltb, true, false, Option, some, List, [], arith, sub32, ◌>>=◌,
}
use leo_net.Base.Lists.{length}
use leo_net.Message.{NetMessage}
use leo_net.Ring.{RingBuffer, construct, empty, used}
use leo_net.Ring.Valid
use leo_net.Ring.Construct.{construct_iff, construct-IsValid}
use leo_net.Queue.{Queue, push_back}
use leo_net.Protocol.{AboutCrypt}
use leo_net.Server.{NetSession, push_to_writequeue}
use leo_net.Server.Session.{new_session, max_buffer_len}
use leo_net.Service.{Libevent, Service, add_write_event}

empty_nothing : (r : RingBuffer) → Valid.IsValid r → Valid.contents r ≡ [] → empty r ≡ true
unfolding empty
empty_nothing r v e =
    let gone : used r ≡ 0 = omega (arith, Valid.length-contents r, ap length e) in
    ground (arith, gone, v.write_word, v.read_word)

-- A buffer as its constructor makes it.
pub made :
    (new_char : ℕ → List ℕ)
    → ((n : ℕ) → length (new_char n) ≡ n)
    → (r : RingBuffer) × (construct new_char max_buffer_len ≡ some r)
      × Valid.IsValid r
      × (Valid.contents r ≡ [])
made new_char allocates =
    let (r, e) = (construct_iff new_char max_buffer_len (omega arith)).1 (12, omega arith, refl) in
    let (valid, nothing, size) =
      construct-IsValid new_char max_buffer_len allocates (omega arith) e in
    (r, e, valid, nothing)

module _ (new_char new_char' : ℕ → List ℕ) (allocates : (n : ℕ) → length (new_char n) ≡ n)
    (allocates' : (n : ℕ) → length (new_char' n) ≡ n) (crypt : AboutCrypt)
    (read_queue write_queue : Queue (Option NetMessage)) {Base : Type 0} (lib : Libevent Base)
    (v : Service Base) where
  -- With allocators that give as many bytes as are asked for, the constructor of `net_session` leaves
  -- the session with two valid and empty buffers, and with the keys and the two queues that the memory
  -- holds. Where the counters of the write queue there are 128 or more apart, pushing a message
  -- calls `add_write_event` for the socket 0, and if that goes through loses the message.
  pub new_session_lem :
      (s : NetSession) × (new_session new_char new_char' crypt read_queue write_queue ≡ some s)
      × (Valid.IsValid s.read_buffer × (Valid.contents s.read_buffer ≡ []))
      × (Valid.IsValid s.write_buffer × (Valid.contents s.write_buffer ≡ []))
      × ((s.crypt ≡ crypt) × (s.read_queue ≡ read_queue) × (s.write_queue ≡ write_queue))
      × (128 ≤ sub32 write_queue.push_index write_queue.pop_index
          → (nm : Option NetMessage)
          → push_to_writequeue lib nm s v ≡ (add_write_event lib 0 v >>= λ v'. some (false, s, v')))
  unfolding new_session push_to_writequeue push_back
  new_session_lem =
      let (r, e, valid, nothing) = made new_char allocates in
      let (w, e', valid', nothing') = made new_char' allocates' in
      let s : NetSession = record {
        socket = 0;
        session_id = 0;
        crypt = crypt;
        read_buffer = r;
        write_buffer = w;
        read_queue = read_queue;
        write_queue = write_queue;
      } in
      (
        s,
        rw (e, e') refl,
        (valid, nothing),
        (valid', nothing'),
        (refl, refl, refl),
        λ apart nm.
            let full : ltb (sub32 write_queue.push_index write_queue.pop_index) 128 ≡ false =
              ground arith in
            rw (full, empty_nothing w valid' nothing') refl,
      )
