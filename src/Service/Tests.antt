-- ===== src/Service/Tests.antt =====
-- Runs of the service's model, and its theorems at a concrete table.
use leo_net.Base.{ℕ, ◌+◌, ◌≡◌, ◌⊎◌, refl, Option, false, some, List, [], ◌∷◌, arith}
use leo_net.Base.Lists.{replicate}
use leo_net.Base.Memory.{store_elem}
use leo_net.Service.{
  Libevent, Service, no_events, is_alive, without, net_event_accept, net_event_create,
  net_event_add, keep_both,
}
use leo_net.Service.Accept.{Registers, Fails, net_event_accept_lem}

-- An event is its number, a base the next number and the events that are added.
abbrev numbering : Libevent (ℕ × List ℕ)
numbering = record {
  event_new = λ fd events eb. (some eb.0, (eb.0 + 1, eb.1));
  event_add = λ e eb. (eb.0, e ∷ eb.1);
  event_del = λ e eb. (eb.0, without e eb.1);
}

-- Keeps the sockets.
abbrev log : ℕ → List ℕ → Option (List ℕ)
log fd s = some (fd ∷ s)

abbrev eight : Service (ℕ × List ℕ)
eight = record { net_events = replicate 8 no_events; eb = (1, []); alive = [] }

fresh : (e : ℕ) → some 1 ≡ some e → is_alive e [] ≡ false
unfolding is_alive
fresh e h = refl

net_event_accept_lem_example : Registers numbering log 5 eight [] ⊎ Fails numbering log 5 eight []
net_event_accept_lem_example = net_event_accept_lem numbering log 5 eight [] (omega arith) fresh

-- The two events, the first of them added.
abbrev five_there : Service (ℕ × List ℕ)
five_there = record {
  net_events =
      no_events
      ∷ no_events
      ∷ no_events
      ∷ no_events
      ∷ no_events
      ∷ record { ev_read = some 1; ev_write = some 2 }
      ∷ no_events
      ∷ no_events
      ∷ [];
  eb = (3, 1 ∷ []);
  alive = 2 ∷ 1 ∷ [];
}

accept_five : net_event_accept numbering log 5 eight [] ≡ some (five_there, 5 ∷ [])
unfolding net_event_accept net_event_create net_event_add keep_both is_alive store_elem
accept_five = refl
