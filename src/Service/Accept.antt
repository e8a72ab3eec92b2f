-- ===== src/Service/Accept.antt =====
-- What `net_event_accept` (src/leo_net_service.c) does with the events.
use leo_net.Base.{
  ℕ, ◌≤◌, ◌<◌, ◌^◌, ◌≡◌, refl, true, false, Option, none, some, List, ◌∷◌, arith, inl, inr, ◌⊎◌,
  leb, ◌>>=◌,
}
use native.Mathlib.Decide.{dec_lt}
use leo_net.Base.Lists.{length, set}
use leo_net.Base.Memory.{store_elem_lem, store_elem-eq-none}
use leo_net.Service.{
  Libevent, Service, reading, writing, is_alive, without, net_event_create, net_event_add,
  free_event, keep_both, net_event_accept,
}

pub Option-cases : {A : Type 0} → (o : Option A) → (o ≡ none) ⊎ ((a : A) × (o ≡ some a))
Option-cases none = inl refl
Option-cases (some a) = inr (a, refl)

without-dead :
    (e : ℕ) (alive : List ℕ) → is_alive e alive ≡ false → is_alive e (without e (e ∷ alive)) ≡ false
unfolding without is_alive
without-dead e alive dead = ground (arith, dead)

alive_first : (r w : ℕ) (alive : List ℕ) → is_alive r (w ∷ r ∷ alive) ≡ true
unfolding is_alive
alive_first r w alive = ground arith

module _ {Base S : Type 0} (lib : Libevent Base) (accept_cb : ℕ → S → Option S) (fd : ℕ)
    (v : Service Base) (s : S) where
  -- What libevent gives for the two events.
  abbrev pub first : Option ℕ × Base
  first = lib.event_new fd reading v.eb

  abbrev pub second : Option ℕ × Base
  second = lib.event_new fd writing first.1

  -- With both events there and room in the table, what is left behind.
  abbrev pub accepted : ℕ → ℕ → Service Base
  accepted r w = record {
    net_events = set v.net_events fd (record { ev_read = some r; ev_write = some w });
    eb = lib.event_add r second.1;
    alive = w ∷ r ∷ v.alive;
  }

  abbrev pub Registers : Type 0
  Registers =
      (r w : ℕ) × (first.0 ≡ some r)
      × (second.0 ≡ some w)
      × (fd < length v.net_events)
      × (net_event_accept lib accept_cb fd v s ≡ (accept_cb fd s >>= λ s'. some (accepted r w, s')))

  abbrev pub Fails : Type 0
  Fails =
      ((first.0 ≡ none) ⊎ ((second.0 ≡ none) ⊎ (length v.net_events ≤ fd)))
      × (net_event_accept lib accept_cb fd v s ≡ none)

  module _ (small : fd < 2 ^ 31)
      (fresh : (e : ℕ) → first.0 ≡ some e → is_alive e v.alive ≡ false) where
    positive : leb (2 ^ 31) fd ≡ false
    positive = ground arith

    both : (r w : ℕ) → first.0 ≡ some r → second.0 ≡ some w → fd < length v.net_events → Registers
    unfolding net_event_accept net_event_create net_event_add keep_both is_alive
    both r w e₁ e₂ inside =
        let held = alive_first r w v.alive in
        let stores =
          store_elem_lem v.net_events fd (record { ev_read = some r; ev_write = some w }) inside in
        (r, w, e₁, e₂, inside, rw (positive, e₁, e₂, stores, held) refl)

    no_room : length v.net_events ≤ fd → net_event_accept lib accept_cb fd v s ≡ none
    unfolding net_event_accept net_event_create
    no_room outside =
        rw
          (
            positive,
            store_elem-eq-none v.net_events fd (record { ev_read = first.0; ev_write = second.0 })
                outside,
          )
          refl

    no_read :
        first.0 ≡ none → fd < length v.net_events → net_event_accept lib accept_cb fd v s ≡ none
    unfolding net_event_accept net_event_create net_event_add keep_both free_event
    no_read e₁ inside =
        rw
          (
            positive,
            e₁,
            store_elem_lem v.net_events fd (record { ev_read = none; ev_write = second.0 }) inside,
          )
          refl

    no_write :
        (r : ℕ)
        → first.0 ≡ some r
        → second.0 ≡ none
        → fd < length v.net_events
        → net_event_accept lib accept_cb fd v s ≡ none
    unfolding net_event_accept net_event_create net_event_add keep_both free_event
    no_write r e₁ e₂ inside =
        let dead = without-dead r v.alive (fresh r e₁) in
        rw
          (
            positive,
            e₁,
            e₂,
            store_elem_lem v.net_events fd (record { ev_read = some r; ev_write = none }) inside,
            dead,
          )
          refl

    -- On a socket below 2^31, `event_new` giving no event that is alive already, `net_event_accept`
    -- puts the two events into the table, adds the one for reading and calls the callback when
    -- libevent gives both and the table reaches to the socket. When an event is missing, or the socket
    -- is beyond the table, it uses an event that is null or freed, or writes outside the table.
    pub net_event_accept_lem : Registers ⊎ Fails
    net_event_accept_lem = elim (dec_lt fd (length v.net_events)) [
      | no outside ↦ inr (inr (inr (omega arith)), no_room (omega arith))
      | yes inside ↦ elim (Option-cases first.0) [
        | inl e₁ ↦ inr (inl e₁, no_read e₁ inside)
        | inr (r, e₁) ↦ elim (Option-cases second.0) [
          | inl e₂ ↦ inr (inr (inl e₂), no_write r e₁ e₂ inside)
          | inr (w, e₂) ↦ inl (both r w e₁ e₂ inside)
        ]
      ]
    ]
