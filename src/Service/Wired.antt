-- ===== src/Service/Wired.antt =====
-- The table of events (src/leo_net_service.c) holds only events that are alive, so that
-- `net_session`'s `add_write_event` and `del_write_event` (src/leo_net_session.cpp) may use it.
use leo_net.Base.{
  ℕ, zero, suc, ◌<◌, ◌^◌, ◌≡◌, refl, ap, sym, ◌∙◌, true, false, Bool-cases, Option, none, some,
  some-injective, some_bind, List, ◌∷◌, arith, inl, inr, ◌⊎◌, ◌==◌, leb, if◌then◌else◌,
}
use std.Path.{subst}
use leo_net.Base.Lists.{length, get_or, replicate, set, get_or-set, length-set, get_elem?-eq-get_or}
use leo_net.Service.{
  NetRwEvent, no_events, Libevent, Service, is_alive, is_null, net_event_add, net_event_del,
  net_event_accept, net_service_get_evnets, add_write_event, del_write_event,
}
use leo_net.Service.Accept.{first, accepted, net_event_accept_lem}

-- What stands in the table is alive.
unfoldable pub IsWired : {Base : Type 0} → Service Base → Type 0
IsWired v =
    (k e : ℕ)
    → ((get_or v.net_events k no_events).ev_read ≡ some e)
      ⊎ ((get_or v.net_events k no_events).ev_write ≡ some e)
    → is_alive e v.alive ≡ true

unused : (n k : ℕ) → get_or (replicate n no_events) k no_events ≡ no_events
unused zero k = refl
unused (suc n) zero = refl
unused (suc n) (suc k) = unused n k

-- A table of zero bytes is so.
pub replicate-IsWired :
    {Base : Type 0} (n : ℕ) (eb : Base) (alive : List ℕ)
    → IsWired (record { net_events = replicate n no_events; eb = eb; alive = alive })
unfolding IsWired
replicate-IsWired n eb alive k e (inl h) =
    absurd (ground (arith, sym (ap (λ x. x.ev_read) (unused n k)) ∙ h))
replicate-IsWired n eb alive k e (inr h) =
    absurd (ground (arith, sym (ap (λ x. x.ev_write) (unused n k)) ∙ h))

still_alive :
    (e r w : ℕ) (alive : List ℕ) → is_alive e alive ≡ true → is_alive e (w ∷ r ∷ alive) ≡ true
unfolding is_alive
still_alive e r w alive h = ground (arith, h)

now_alive : (e r w : ℕ) (alive : List ℕ) → (r ≡ e) ⊎ (w ≡ e) → is_alive e (w ∷ r ∷ alive) ≡ true
unfolding is_alive
now_alive e r w alive (inl h) = ground (arith, h)
now_alive e r w alive (inr h) = ground (arith, h)

module _ {Base S : Type 0} (lib : Libevent Base) (accept_cb : ℕ → S → Option S) (fd : ℕ)
    (v : Service Base) (s : S) where
  accepted-IsWired :
      (r w : ℕ) → fd < length v.net_events → IsWired v → IsWired (accepted lib accept_cb fd v s r w)
  unfolding IsWired
  accepted-IsWired r w inside wired k e h =
      let new : NetRwEvent = record { ev_read = some r; ev_write = some w } in
      let cell = get_or-set v.net_events fd k new no_events in
      elim (Bool-cases (fd == k)) [
        | inl same ↦
            let there : get_or (set v.net_events fd new) k no_events ≡ new =
              rw same at (cell inside) in
            now_alive e r w v.alive (elim h [
              | inl a ↦ inl (some-injective _ _ (sym (ap (λ n. n.ev_read) there) ∙ a))
              | inr b ↦ inr (some-injective _ _ (sym (ap (λ n. n.ev_write) there) ∙ b))
            ])
        | inr other ↦
            let there : get_or (set v.net_events fd new) k no_events
                ≡ get_or v.net_events k no_events =
              rw other at (cell inside) in
            still_alive e r w v.alive (
              wired k e (elim h [
                | inl a ↦ inl (sym (ap (λ n. n.ev_read) there) ∙ a)
                | inr b ↦ inr (sym (ap (λ n. n.ev_write) there) ∙ b)
              ]))
      ]

  -- `net_event_accept`, where it goes through and `event_new` gives no event that is alive already,
  -- keeps the table's length, and that what stands in the table is alive.
  pub net_event_accept-IsWired :
      ((e : ℕ) → (first lib accept_cb fd v s).0 ≡ some e → is_alive e v.alive ≡ false)
      → IsWired v
      → (v' : Service Base) (s' : S) → net_event_accept lib accept_cb fd v s ≡ some (v', s')
      → IsWired v' × (length v'.net_events ≡ length v.net_events)
  unfolding net_event_accept
  net_event_accept-IsWired fresh wired v' s' e = elim (Bool-cases (leb (2 ^ 31) fd)) [
    | inl negative ↦
        let same : v ≡ v' = ap (λ x. x.0) (some-injective _ _ (rw negative at e)) in
        (subst IsWired same wired, ap (λ x. length x.net_events) (sym same))
    | inr positive ↦ elim (net_event_accept_lem lib accept_cb fd v s (ground arith) fresh) [
      | inl (r, w, e₁, e₂, inside, runs) ↦
          let (s'', calls, returns) = some_bind (accept_cb fd s) _ (v', s') (sym runs ∙ e) in
          let same : accepted lib accept_cb fd v s r w ≡ v' =
            ap (λ x. x.0) (some-injective _ _ returns) in
          (
            subst IsWired same (accepted-IsWired r w inside wired),
            ap (λ x. length x.net_events) (sym same)
                ∙ length-set v.net_events fd (record { ev_read = some r; ev_write = some w }),
          )
      | inr (why, fails) ↦ absurd (ground (arith, sym fails ∙ e))
    ]
  ]

module _ {Base : Type 0} (lib : Libevent Base) (v : Service Base) where
  add_used :
      (w : Option ℕ)
      → ((e : ℕ) → w ≡ some e → is_alive e v.alive ≡ true)
      → (if is_null w then some v else net_event_add lib w v)
        ≡ some (elim w [ none ↦ v | some e ↦ record v { eb = lib.event_add e v.eb } ])
  unfolding net_event_add
  add_used none live = refl
  add_used (some e) live = rw (live e refl) refl

  del_used :
      (w : Option ℕ)
      → ((e : ℕ) → w ≡ some e → is_alive e v.alive ≡ true)
      → (if is_null w then some v else net_event_del lib w v)
        ≡ some (elim w [ none ↦ v | some e ↦ record v { eb = lib.event_del e v.eb } ])
  unfolding net_event_del
  del_used none live = refl
  del_used (some e) live = rw (live e refl) refl

-- In a table in which all is alive, `add_write_event` and `del_write_event` on a socket within it go
-- through: they hand the socket's write event to libevent, or do nothing where it has none.
pub write_events_lem :
    {Base : Type 0} (lib : Libevent Base) (fd : ℕ) (v : Service Base)
    → IsWired v
    → fd < length v.net_events
    → let ev_write = (get_or v.net_events fd no_events).ev_write in
      (add_write_event lib fd v
        ≡ some (elim ev_write [ none ↦ v | some e ↦ record v { eb = lib.event_add e v.eb } ]))
      × (del_write_event lib fd v
          ≡ some (elim ev_write [ none ↦ v | some e ↦ record v { eb = lib.event_del e v.eb } ]))
unfolding add_write_event del_write_event net_service_get_evnets IsWired
write_events_lem lib fd v wired inside =
    let there = get_elem?-eq-get_or v.net_events fd no_events inside in
    let w = (get_or v.net_events fd no_events).ev_write in
    let live : (e : ℕ) → w ≡ some e → is_alive e v.alive ≡ true = λ e h. wired fd e (inr h) in
    (rw there (add_used lib v w live), rw there (del_used lib v w live))
