-- ===== src/Service/Sockets.antt =====
-- The wrappers of src/leo_net_service.c around the system's sockets and libevent's bases. The system's
-- calls, its constants and libevent's are parameters; `World` is what they act on. An `int` is its
-- bit pattern.
use leo_net.Base.{ℕ, ◌^◌, ◌-◌, ◌==◌, Option, none, some, List, if◌then◌else◌}
use leo_net.Service.{Service, is_alive, without}

-- `struct sockaddr_in`
pub record SockaddrIn : Type 0 where
  pub sin_family : ℕ
  pub s_addr : ℕ
  pub sin_port : ℕ

pub record Kernel (World : Type 0) : Type 0 where
  pub af_inet : ℕ
  pub sock_stream : ℕ
  pub ipproto_tcp : ℕ
  pub tcp_nodelay : ℕ
  pub htons : ℕ → ℕ
  pub open_socket : ℕ → ℕ → ℕ → World → ℕ × World
  pub closesocket : ℕ → World → World
  pub bind_socket : ℕ → SockaddrIn → World → ℕ × World
  pub listen : ℕ → ℕ → World → ℕ × World
  pub recv : ℕ → ℕ → World → List ℕ × World
  pub send : ℕ → List ℕ → World → ℕ × World
  pub setsockopt : ℕ → ℕ → ℕ → ℕ → World → ℕ × World
  pub make_socket_nonblocking : ℕ → World → ℕ × World
  pub make_listen_socket_reuseable : ℕ → World → ℕ × World

module _ {World : Type 0} (k : Kernel World) where
  pub net_socket_open : World → ℕ × World
  net_socket_open w = k.open_socket k.af_inet k.sock_stream k.ipproto_tcp w

  pub net_socket_close : ℕ → World → World
  net_socket_close fd w = k.closesocket fd w

  pub net_socket_init : ℕ → World → ℕ × World
  net_socket_init fd w = (0, w)

  pub net_socket_bind : ℕ → ℕ → World → ℕ × World
  net_socket_bind fd port w =
      k.bind_socket fd (record { sin_family = k.af_inet; s_addr = 0; sin_port = k.htons port }) w

  pub net_socket_listen : ℕ → ℕ → World → ℕ × World
  net_socket_listen fd backlog w = k.listen fd backlog w

  -- The bytes that come into the buffer, at most `len`; none where `recv` gives 0 or an error.
  pub net_socket_recv : ℕ → ℕ → World → List ℕ × World
  net_socket_recv fd len w = k.recv fd len w

  pub net_socket_send : ℕ → List ℕ → World → ℕ × World
  net_socket_send fd buf w = k.send fd buf w

  pub net_socket_nonblocking : ℕ → World → ℕ × World
  net_socket_nonblocking fd w = k.make_socket_nonblocking fd w

  pub net_socket_reuseaddr : ℕ → World → ℕ × World
  net_socket_reuseaddr fd w = k.make_listen_socket_reuseable fd w

  pub net_socket_tcpnodely : ℕ → World → ℕ × World
  net_socket_tcpnodely fd w =
      let (result, w') = k.setsockopt fd k.ipproto_tcp k.tcp_nodelay 1 w in
      (if result == 2 ^ 32 - 1 then 0 else 1, w')

-- libevent's functions that `Libevent` does not have.
pub record Bases (Base World : Type 0) : Type 0 where
  pub event_base_new : World → Option Base × World
  pub event_base_free : Base → World → World
  pub event_free : ℕ → Base → Base
  pub event_assign : ℕ → ℕ → ℕ → Base → ℕ × Base

module _ {Base World : Type 0} (b : Bases Base World) where
  pub net_service_create : World → Option Base × World
  net_service_create w = b.event_base_new w

  pub net_service_release : Base → World → World
  net_service_release eb w = b.event_base_free eb w

  pub net_event_release : Option ℕ → Service Base → Option (Service Base)
  net_event_release none v = none
  net_event_release (some e) v =
      if is_alive e v.alive
      then some (record v { eb = b.event_free e v.eb; alive = without e v.alive })
      else none

  pub net_event_reset : Option ℕ → ℕ → ℕ → Service Base → Option (ℕ × Service Base)
  net_event_reset none fd events v = none
  net_event_reset (some e) fd events v =
      if is_alive e v.alive
      then (let (result, eb) = b.event_assign e fd events v.eb in
          some (result, record v { eb = eb }))
      else none
