-- ===== src/Loop/Reached.antt =====
-- Every state that the event loop of `main` (src/main.c) reaches is sound.
use leo_net.Base.{
  ℕ, ◌^◌, ◌≡◌, ◌⊎◌, ◌∙◌, inl, inr, sym, ap, true, Bool-cases, Option, some, some-injective,
  some_bind, List, arith, leb,
}
use std.Path.{subst}
use leo_net.Base.Lists.{length}
use leo_net.Base.Memory.{store_elem}
use leo_net.Base.Endian.{IsBytes}
use leo_net.Protocol.Key.Sent.{IsKeys}
use leo_net.Server.{Server}
use leo_net.Server.Accept.{on_accept}
use leo_net.Server.Session.Calls.{call-IsSession, woken, woken-IsTable}
use leo_net.Server.Working.{IsWorking}
use leo_net.Service.{Libevent, Service, net_events_length, net_event_add, net_event_accept}
use leo_net.Service.Table.{IsTable, IsTable-IsWired, if_del-IsTable}
use leo_net.Service.Wired.{IsWired, net_event_accept-IsWired}
use leo_net.Loop.{LoopState, Step, accepts, reads, writes, calls, Reach, here, next}
use leo_net.Loop.Kept.{
  IsServer, store-IsServer, on_read-IsServer, on_write-IsServer, on_accept-IsServer,
}

-- No session is shared, every session is fit for work, and what stands in the table of events is
-- alive.
pub record IsLoop {Base : Type 0} (st : LoopState Base) : Type 0 where
  pub server : IsServer st.server
  pub wired : IsWired st.service
  pub table : length st.service.net_events ≡ net_events_length

module _ {Base : Type 0} (lib : Libevent Base) where
  -- What the handler of a connection does to the user's state is what the callback does, if it is
  -- called.
  accept-callback :
      {S : Type 0} (accept_cb : ℕ → S → Option S) (fd : ℕ) (v : Service Base) (s : S)
      (v' : Service Base) (s' : S)
      → net_event_accept lib accept_cb fd v s ≡ some (v', s')
      → (s ≡ s') ⊎ (accept_cb fd s ≡ some s')
  unfolding net_event_accept
  accept-callback accept_cb fd v s v' s' e = elim (Bool-cases (leb (2 ^ 31) fd)) [
    | inl negative ↦ inl (ap (λ x. x.1) (some-injective _ _ (rw negative at e)))
    | inr positive ↦
        let f : _ ≡ some (v', s') = rw positive at e in
        let (net_events, _, f₁) = some_bind (store_elem _ fd _) _ (v', s') f in
        let (v₄, _, f₂) = some_bind (net_event_add lib _ _) _ (v', s') f₁ in
        let (s'', called, f₃) = some_bind (accept_cb fd s) _ (v', s') f₂ in
        inr (called ∙ ap (λ x. some x.1) (some-injective _ _ f₃))
  ]

module _ {Base : Type 0} (lib : Libevent Base) (xor_keys crc32_table : List ℕ)
    (whole : length xor_keys ≡ 4352) (bytes : IsBytes xor_keys) where
  accepts-IsServer :
      (fd rand rand' : ℕ) (buf : List ℕ) (st : LoopState Base) (service : Service Base)
      (server : Server)
      → length buf ≡ 32
      → IsBytes buf
      → net_event_accept lib (on_accept xor_keys rand rand' buf) fd st.service st.server
        ≡ some (service, server)
      → IsServer st.server
      → IsServer server
  accepts-IsServer fd rand rand' buf st service server long buf_bytes e v =
      elim (accept-callback lib (on_accept xor_keys rand rand' buf) fd st.service st.server service
        server e) [
          | inl same ↦ subst IsServer same v
          | inr called ↦
              on_accept-IsServer xor_keys whole bytes rand rand' buf (omega arith) buf_bytes fd
                st.server server v called
        ]

  Step-IsLoop :
      {st st' : LoopState Base} → Step lib xor_keys crc32_table st st' → IsLoop st → IsLoop st'
  Step-IsLoop {st} (accepts fd rand rand' buf service server long buf_bytes fresh e) v =
      let (wired, same) =
        net_event_accept-IsWired lib (on_accept xor_keys rand rand' buf) fd st.service st.server
          fresh v.wired service server e in
      record {
        server = accepts-IsServer fd rand rand' buf st service server long buf_bytes e v.server;
        wired = wired;
        table = same ∙ v.table;
      }
  Step-IsLoop {st} (reads allocated fuel fd recv server e) v = record {
    server =
        on_read-IsServer crc32_table allocated fuel recv fd st.server v.server (true, server) e;
    wired = v.wired;
    table = v.table;
  }
  Step-IsLoop {st} (writes fuel fd send sent service server e f) v =
      let kept = if_del-IsTable lib sent fd st.service service f in
      record {
        server = on_write-IsServer fuel send fd st.server v.server (true, sent, server) e;
        wired = IsTable-IsWired lib st.service service kept v.wired;
        table = ap length kept.0 ∙ v.table;
      }
  Step-IsLoop {st} (calls c at s s' service sessions is_session e f) v =
      let w = v.server.working at s is_session in
      let (s'', runs, session, same, _) = call-IsSession lib c s st.service w.session in
      let (v', wakes, returns) =
        some_bind (woken lib c s st.service) _ (s', service) (sym runs ∙ e) in
      let this : s'' ≡ s' = ap (λ x. x.0) (some-injective _ _ returns) in
      let that : v' ≡ service = ap (λ x. x.1) (some-injective _ _ returns) in
      let table : IsTable st.service service =
        subst (IsTable st.service) that (woken-IsTable lib c s st.service v' wakes) in
      let w' : IsWorking s'' = record {
        session = session;
        keys = subst IsKeys (sym same) w.keys;
      } in
      record {
        server = store-IsServer st.server at s' sessions v.server (subst IsWorking this w') f;
        wired = IsTable-IsWired lib st.service service table v.wired;
        table = ap length table.0 ∙ v.table;
      }

  -- With the table of xor keys whole, and whatever the table of the checksum holds: as long as no
  -- access is out of range, in whatever order connections, data and calls come in, the event loop
  -- reaches from a sound state only sound ones: no session has two sockets or is free while it has
  -- one, every session's buffers, queues and keys are valid, and every event in the table is alive.
  pub Reach-IsLoop :
      {st st' : LoopState Base} → Reach lib xor_keys crc32_table st st' → IsLoop st → IsLoop st'
  Reach-IsLoop here v = v
  Reach-IsLoop (next r step) v = Step-IsLoop step (Reach-IsLoop r v)
