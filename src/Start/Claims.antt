-- ===== src/Start/Claims.antt =====
-- What `main` (src/main.c) comes to.
use leo_net.Base.{
  ℕ, zero, suc, ◌+◌, ◌-◌, ◌≤◌, ◌<◌, ◌^◌, ◌≡◌, refl, ap, true, false, Bool-cases, ltb, ◌⊎◌, ◌==◌,
  leb, none, some, some-injective, inl, inr, List, [], ◌∷◌, arith,
}
use std.Path.{subst}
use leo_net.Base.Lists.{length, get_elem?}
use leo_net.Base.Endian.{IsBytes}
use leo_net.Ring.Valid
use leo_net.Xor.Keys.Rows.{initial_xor_keys_lem, initial_xor_keys-IsBytes}
use leo_net.Crc.{initial_crc32_table}
use leo_net.Crc.Table.{initial_crc32_table_lem, initial_crc32_table_iff}
use leo_net.Sessions.{init_sessions, push_from, new_manager}
use leo_net.Server.{NetSession}
use leo_net.Server.Session.{new_session}
use leo_net.Server.Session.Built.{made}
use leo_net.Singleton.{create_singleton, get_instance, object}
use leo_net.Service.{
  Libevent, Service, reading, new_service, is_alive, net_event_create, net_event_add,
}
use leo_net.Service.Accept.{Option-cases}
use leo_net.Start.{System, Memory, Started, new_sessions, add_event, listen_event, main}

-- Every allocator of the sessions gives as many bytes as are asked for.
pub record Allocates (memory : Memory) : Type 0 where
  pub reads : (i n : ℕ) → length (memory.new_char i n) ≡ n
  pub writes : (i n : ℕ) → length (memory.new_char' i n) ≡ n

module _ {Base : Type 0} (lib : Libevent Base) (fd e : ℕ) (v : Service Base) where
  listen_event_lem :
      (lib.event_new fd reading v.eb).0 ≡ some e
      → listen_event lib fd v
        ≡ some (
            some (record v {
              eb = lib.event_add e (lib.event_new fd reading v.eb).1;
              alive = e ∷ v.alive;
            }))
  unfolding listen_event add_event net_event_create net_event_add is_alive
  listen_event_lem h = let it : is_alive e (e ∷ v.alive) ≡ true = ground arith in rw (h, it) refl

-- The buffers of a session are valid.
pub record IsBuffered (s : NetSession) : Type 0 where
  pub read_ring : Valid.IsValid s.read_buffer
  pub write_ring : Valid.IsValid s.write_buffer

cons_all :
    (s : NetSession) (rest : List NetSession)
    → IsBuffered s
    → ((k : ℕ) (s' : NetSession) → get_elem? rest k ≡ some s' → IsBuffered s')
    → (k : ℕ) (s' : NetSession) → get_elem? (s ∷ rest) k ≡ some s'
    → IsBuffered s'
cons_all s rest here there zero s' e = subst IsBuffered (some-injective _ _ e) here
cons_all s rest here there (suc k) s' e = there k s' e

new_sessions_lem :
    (memory : Memory)
    → Allocates memory
    → (left i : ℕ)
    → (sessions : List NetSession) × (new_sessions memory left i ≡ some sessions)
      × (length sessions ≡ left)
      × ((k : ℕ) (s : NetSession) → get_elem? sessions k ≡ some s → IsBuffered s)
unfolding new_sessions new_session
new_sessions_lem memory fine zero i = ([], refl, refl, λ k s e. absurd (ground (arith, e)))
new_sessions_lem memory fine (suc left) i =
    let (r, e, valid, _) = made (memory.new_char i) (fine.reads i) in
    let (w, e', valid', _) = made (memory.new_char' i) (fine.writes i) in
    let (rest, goes, count, all) = new_sessions_lem memory fine left (i + 1) in
    let s : NetSession = record {
      socket = 0;
      session_id = 0;
      crypt = memory.crypt i;
      read_buffer = r;
      write_buffer = w;
      read_queue = memory.read_queue i;
      write_queue = memory.write_queue i;
    } in
    (
      s ∷ rest,
      rw (e, e', goes) refl,
      ap suc count,
      cons_all s rest (record { read_ring = valid; write_ring = valid' }) all,
    )

-- What `main` has done when it comes to libevent's loop.
abbrev pub Ready : {Base : Type 0} → Libevent Base → System Base → Base → ℕ → Started Base → Type 0
Ready lib system eb e st =
    (st.service.eb ≡ lib.event_add e (lib.event_new system.listen_fd reading eb).1)
    × (st.server.manager.vct_sessions ≡ 0 ∷ 1 ∷ 2 ∷ 3 ∷ 4 ∷ 5 ∷ 6 ∷ 7 ∷ 8 ∷ 9 ∷ [])
    × (st.server.manager.map_sessions ≡ [])
    × (length st.server.malloc_session ≡ 10)
    × ((k : ℕ) (s : NetSession) → get_elem? st.server.malloc_session k ≡ some s → IsBuffered s)

module _ {Base : Type 0} (lib : Libevent Base) (rand : ℕ → ℕ) (memory : Memory)
    (system : System Base) (xor_keys crc32_table : List ℕ) (whole : length xor_keys ≡ 4352)
    (open_ok : (system.listen_fd == 2 ^ 32 - 1) ≡ false) (bind_ok : system.bound < 2 ^ 31)
    (listen_ok : system.listening < 2 ^ 31) where
  -- Whatever libevent and the memory give, once the socket listens `main` writes outside an array of
  -- fewer than 256 words.
  main_short : length crc32_table < 256 → main lib rand memory system xor_keys crc32_table ≡ none
  unfolding main
  main_short short =
      let (keys, fills, _, _, _) = initial_xor_keys_lem rand xor_keys 0 whole in
      let bound : leb (2 ^ 31) system.bound ≡ false = ground arith in
      let listening : leb (2 ^ 31) system.listening ≡ false = ground arith in
      let outside : initial_crc32_table crc32_table ≡ none =
        elim (Option-cases (initial_crc32_table crc32_table)) [
          | inl e ↦ e
          | inr (table, e) ↦
              absurd (omega (arith, short, (initial_crc32_table_iff crc32_table).0 (table, e)))
        ] in
      rw (open_ok, bound, listening, fills, outside) refl

  -- What `main` leaves for the loop, given the table of keys, the table of the checksum, the sessions,
  -- the base and the event of the listening socket.
  abbrev pub started : List ℕ → List ℕ → List NetSession → Base → ℕ → Started Base
  started keys table sessions eb e = record {
    xor_keys = keys;
    crc32_table = table;
    server = record { manager = (init_sessions true new_manager).1; malloc_session = sessions };
    service = record (new_service eb) {
      eb = lib.event_add e (lib.event_new system.listen_fd reading eb).1;
      alive = e ∷ [];
    };
  }

  pub main_runs :
      256 ≤ length crc32_table
      → (sessions : List NetSession) → new_sessions memory 10 0 ≡ some sessions
      → (eb : Base) (e : ℕ) → system.eb ≡ some eb
      → (lib.event_new system.listen_fd reading eb).0 ≡ some e
      → (keys table : List ℕ) × (main lib rand memory system xor_keys crc32_table
          ≡ some (some (started keys table sessions eb e)))
        × (length keys ≡ 4352)
        × IsBytes keys
  unfolding main create_singleton get_instance object
  main_runs long sessions makes eb e has_eb has_e =
      let (keys, fills, count, bytes) = initial_xor_keys-IsBytes rand xor_keys whole in
      let (table, reflects, _, _) = initial_crc32_table_lem crc32_table long in
      let bound : leb (2 ^ 31) system.bound ≡ false = ground arith in
      let listening : leb (2 ^ 31) system.listening ≡ false = ground arith in
      (
        keys,
        table,
        rw
            (
              open_ok,
              bound,
              listening,
              fills,
              reflects,
              makes,
              has_eb,
              listen_event_lem lib system.listen_fd e (new_service eb) has_e,
            )
            refl,
        count,
        bytes,
      )

  -- With a table of xor keys of 4352 bytes, a socket that listens, allocators that give as many bytes
  -- as are asked for and a base and an event from libevent, `main` writes outside the array of the
  -- checksum's table if that has fewer than 256 words, as the one of 255 that the source declares;
  -- otherwise it comes to libevent's loop, with the event of the listening socket added, ten
  -- sessions in the pool, no socket in the map and valid buffers.
  pub main_lem :
      Allocates memory
      → (eb : Base) (e : ℕ) → system.eb ≡ some eb
      → (lib.event_new system.listen_fd reading eb).0 ≡ some e
      → ((length crc32_table < 256) × (main lib rand memory system xor_keys crc32_table ≡ none))
        ⊎ ((256 ≤ length crc32_table)
            × ((st : Started Base) × (main lib rand memory system xor_keys crc32_table
                  ≡ some (some st))
                × Ready lib system eb e st))
  unfolding init_sessions push_from new_manager
  main_lem fine eb e has_eb has_e = elim (Bool-cases (ltb (length crc32_table) 256)) [
    | inl short ↦ inl (ground (arith, short), main_short (ground (arith, short)))
    | inr long_enough ↦
        let long : 256 ≤ length crc32_table = ground (arith, long_enough) in
        let (sessions, makes, count, all) = new_sessions_lem memory fine 10 0 in
        let (keys, table, runs, _, _) = main_runs long sessions makes eb e has_eb has_e in
        inr (long, (started keys table sessions eb e, runs, (refl, refl, refl, count, all)))
  ]
