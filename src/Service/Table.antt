-- ===== src/Service/Table.antt =====
-- `net_session`'s `add_write_event` and `del_write_event` (src/leo_net_session.cpp) leave the table of
-- events (src/leo_net_service.c) and what is alive as they are.
use leo_net.Base.{
  ℕ, ◌≡◌, ◌⊎◌, inl, inr, sym, ap, Bool, true, false, Bool-cases, Option, none, some, some-injective,
  some_bind, if◌then◌else◌, arith,
}
use std.Path.{subst}
use leo_net.Base.Lists.{get_elem?, get_or}
use leo_net.Service.{
  Libevent, Service, no_events, is_alive, is_null, net_event_add, net_event_del,
  net_service_get_evnets, add_write_event, del_write_event,
}
use leo_net.Service.Wired.{IsWired}

-- The same table, and the same events alive.
abbrev pub IsTable : {Base : Type 0} → Service Base → Service Base → Type 0
IsTable v v' = (v'.net_events ≡ v.net_events) × (v'.alive ≡ v.alive)

module _ {Base : Type 0} (lib : Libevent Base) where
  pub same-IsTable : (v v' : Service Base) → some v ≡ some v' → IsTable v v'
  same-IsTable v v' h =
      let same = some-injective _ _ h in
      (ap (λ x. x.net_events) (sym same), ap (λ x. x.alive) (sym same))

  deleted :
      (e : Option ℕ) (v v' : Service Base)
      → (if is_null e then some v else net_event_del lib e v) ≡ some v'
      → IsTable v v'
  unfolding net_event_del
  deleted none v v' h = same-IsTable v v' h
  deleted (some e) v v' h = elim (Bool-cases (is_alive e v.alive)) [
    | inl lives ↦
        let same = some-injective _ _ (rw lives at h) in
        (ap (λ x. x.net_events) (sym same), ap (λ x. x.alive) (sym same))
    | inr dead ↦ absurd (ground (arith, rw dead at h))
  ]

  added :
      (e : Option ℕ) (v v' : Service Base)
      → (if is_null e then some v else net_event_add lib e v) ≡ some v'
      → IsTable v v'
  unfolding net_event_add
  added none v v' h = same-IsTable v v' h
  added (some e) v v' h = elim (Bool-cases (is_alive e v.alive)) [
    | inl lives ↦
        let same = some-injective _ _ (rw lives at h) in
        (ap (λ x. x.net_events) (sym same), ap (λ x. x.alive) (sym same))
    | inr dead ↦ absurd (ground (arith, rw dead at h))
  ]

  del_write_event-IsTable :
      (fd : ℕ) (v v' : Service Base) → del_write_event lib fd v ≡ some v' → IsTable v v'
  unfolding del_write_event net_service_get_evnets
  del_write_event-IsTable fd v v' h =
      let (rw_events, _, f) = some_bind (get_elem? v.net_events fd) _ v' h in
      deleted rw_events.ev_write v v' f

  add_write_event-IsTable :
      (fd : ℕ) (v v' : Service Base) → add_write_event lib fd v ≡ some v' → IsTable v v'
  unfolding add_write_event net_service_get_evnets
  add_write_event-IsTable fd v v' h =
      let (rw_events, _, f) = some_bind (get_elem? v.net_events fd) _ v' h in
      added rw_events.ev_write v v' f

  pub IsTable-IsWired : (v v' : Service Base) → IsTable v v' → IsWired v → IsWired v'
  unfolding IsWired
  IsTable-IsWired v v' (table, alive) wired k e h = rw alive (
      wired k e (
        subst
          (λ t.
            ((get_or t k no_events).ev_read ≡ some e) ⊎ ((get_or t k no_events).ev_write ≡ some e))
          table h))

  pub if_del-IsTable :
      (sent : Bool) (fd : ℕ) (v v' : Service Base)
      → (if sent then del_write_event lib fd v else some v) ≡ some v'
      → IsTable v v'
  if_del-IsTable true fd v v' h = del_write_event-IsTable fd v v' h
  if_del-IsTable false fd v v' h = same-IsTable v v' h

  pub if_add-IsTable :
      (empty : Bool) (fd : ℕ) (v v' : Service Base)
      → (if empty then add_write_event lib fd v else some v) ≡ some v'
      → IsTable v v'
  if_add-IsTable true fd v v' h = add_write_event-IsTable fd v v' h
  if_add-IsTable false fd v v' h = same-IsTable v v' h
