-- ===== src/Server/Write.antt =====
-- What `fetch_from_writequeue` (src/leo_net_session.h) and the handler `on_write` (src/main.c) do.
use leo_net.Base.{
  ◌==◌, ℕ, suc, ◌+◌, ◌<◌, ◌≡◌, ◌⊎◌, inl, inr, ◌∙◌, refl, ap, true, false, Option, none, some, List,
  [], ◌∷◌, arith, ◌>>=◌,
}
use leo_net.Base.Lists.{length}
use leo_net.Message.{NetMessage}
use leo_net.Queue.Valid.{IsValid, contents, length-contents}
use leo_net.Queue.Fifo.{unqueue, pop_front_lem}
use leo_net.Queue.{pop_front}
use leo_net.Server.{
  NetSession, max_queue_len, fetch_from_writequeue, write_loop, send_buffer, write_session,
}

-- The messages in the write queue, oldest first.
abbrev pub queued : NetSession → List (Option NetMessage)
queued s = contents none max_queue_len s.write_queue

pub List-cases {ℓ} :
    {A : Type ℓ} (xs : List A) → (xs ≡ []) ⊎ ((x : A) × (rest : List A) × (xs ≡ x ∷ rest))
List-cases [] = inl refl
List-cases (x ∷ rest) = inr (x, rest, refl)

module _ (s : NetSession) (valid : IsValid max_queue_len s.write_queue) where
  pub fetch_nothing :
      (nm : Option NetMessage) → queued s ≡ [] → fetch_from_writequeue nm s ≡ some (false, s)
  unfolding fetch_from_writequeue pop_front
  fetch_nothing nm e =
      let q = s.write_queue in
      let gone : length (queued s) ≡ 0 = rw e (omega arith) in
      let same : (q.push_index == q.pop_index) ≡ true =
        ground (arith, length-contents none valid, gone, valid.push_word, valid.pop_word) in
      rw same refl

  pub fetch_oldest :
      (nm oldest : Option NetMessage) (rest : List (Option NetMessage))
      → queued s ≡ oldest ∷ rest
      → (s' : NetSession) × (fetch_from_writequeue nm s ≡ some (true, s')) × (queued s' ≡ rest)
  unfolding fetch_from_writequeue unqueue
  fetch_oldest nm oldest rest e =
      let (q', runs, valid', others, _) = pop_front_lem none valid nm in
      (record s { write_queue = q' }, rw (runs, e) refl, others ∙ ap (λ l. (unqueue nm l).2) e)

  -- On a session with a valid write queue `on_write` sends the write buffer when no message is
  -- queued. Whenever one is, it takes the oldest out of the queue and then uses its own pointer
  -- variable, which was never set: the message is lost and the access is undefined.
  pub write_session_lem :
      (fuel : ℕ) (send : List ℕ → ℕ)
      → ((queued s ≡ [])
          × (write_session (suc fuel) send s
              ≡ (send_buffer send s >>= λ sent. some (true, sent.0, sent.1))))
        ⊎ ((0 < length (queued s))
            × ((s' : NetSession) × (fetch_from_writequeue none s ≡ some (true, s'))
                × (length (queued s') + 1 ≡ length (queued s)))
            × (write_session (suc fuel) send s ≡ none))
  unfolding write_session write_loop
  write_session_lem fuel send = elim (List-cases (queued s)) [
    | inl e ↦ inl (e, rw (fetch_nothing none e) refl)
    | inr (oldest, rest, e) ↦
        let (s', runs, others) = fetch_oldest none oldest rest e in
        let more : length (queued s) ≡ suc (length rest) = ap length e in
        let left : length (queued s') ≡ length rest = ap length others in
        inr (omega arith, (s', runs, omega arith), rw runs refl)
  ]
