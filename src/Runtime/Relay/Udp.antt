-- ===== src/Runtime/Relay/Udp.antt =====
-- `run_udp_tunnel` of src/runtime.rs and the two endpoints that it gives to the UDP proxy. The proxy
-- itself is another library's, and an interface here.
use vorto.Prelude.{
  ℕ, Bool, true, false, Option, none, some, List, [], ◌∷◌, length, ◌==◌, if◌then◌else◌,
}
use vorto.Prelude.{take}
use vorto.Text.{text}
use vorto.Net.{SocketAddr, v4, v6}
use vorto.Result.{AppResult, AppError, io, ErrorKind, ok, err, ◌>>=◌}
use vorto.Runtime.System.{Os, configure_udp_socket}

abbrev pub Packet : Type 0
Packet = List ℕ

abbrev pub udp_packet_buffer_size : ℕ
udp_packet_buffer_size = 65535

-- `UdpProxi`: it takes a packet, its client and its target.
pub record Proxy : Type 1 where
  pub State : Type 0
  pub send_packet : Packet → SocketAddr → SocketAddr → State → AppResult (Unit {0}) × State

-- An arm of the `select!`. The Boolean is what the stop channel holds once the arm has run: it is
-- looked at where the arm fails.
pub data Arm : Type 0 where
  received : Packet → SocketAddr → Bool → Arm
  receive_failed : AppError → Bool → Arm
  shut_down : Arm

-- The tunnel waits for its next arm, or has returned.
pub data Outcome : Type 0 where
  waiting : Outcome
  returned : AppResult (Unit {0}) → Outcome

module _ (P : Proxy) (target : SocketAddr) where
  -- Whether a failed forward ends the loop.
  abbrev pub ends_loop : AppResult (Unit {0}) → Bool → Bool
  ends_loop (ok _) stopped = false
  ends_loop (err e) stopped = stopped

  -- What the buffer holds of a datagram goes to the proxy.
  abbrev pub forward : Packet → SocketAddr → P.State → AppResult (Unit {0}) × P.State
  forward datagram client s = P.send_packet (take udp_packet_buffer_size datagram) client target s

  abbrev pub failed_receive : AppError → Bool → Outcome
  failed_receive e true = returned (ok tt)
  failed_receive e false = returned (err e)

  unfoldable pub run_udp_tunnel : List Arm → P.State → Outcome × P.State
  run_udp_tunnel [] s = (waiting, s)
  run_udp_tunnel (shut_down ∷ arms) s = (returned (ok tt), s)
  run_udp_tunnel (receive_failed e stopped ∷ arms) s = (failed_receive e stopped, s)
  run_udp_tunnel (received datagram client stopped ∷ arms) s =
      let rest = run_udp_tunnel arms (forward datagram client s).1 in
      if ends_loop (forward datagram client s).0 stopped
      then (returned (ok tt), (forward datagram client s).1)
      else rest

-- The calls on a UDP socket, beside those of the operating system's interface.
pub record UdpCalls (O : Os) : Type 0 where
  pub bind : SocketAddr → O.State → AppResult ℕ × O.State
  pub connect : ℕ → SocketAddr → O.State → AppResult (Unit {0}) × O.State
  pub send : ℕ → Packet → O.State → AppResult ℕ × O.State
  pub send_to : ℕ → Packet → SocketAddr → O.State → AppResult ℕ × O.State
  pub recv : ℕ → O.State → AppResult Packet × O.State
  pub peer_addr : ℕ → O.State → AppResult SocketAddr

-- The unspecified address of the family of the target, with port 0.
abbrev pub bind_addr : SocketAddr → SocketAddr
bind_addr (v4 ip port) = v4 (record { a = 0; b = 0; c = 0; d = 0 }) 0
bind_addr (v6 groups port scope) = v6 (0 ∷ 0 ∷ 0 ∷ 0 ∷ 0 ∷ 0 ∷ 0 ∷ 0 ∷ []) 0 0

-- A datagram is sent whole or not at all.
abbrev pub whole : Packet → AppResult ℕ → AppResult (Unit {0})
whole packet sent = do
  size ← sent
  if size == length packet
      then ok tt
      else err (io ErrorKind.write_zero (text "UDP socket sent a partial datagram"))

module _ (O : Os) (U : UdpCalls O) where
  abbrev connected : ℕ → AppResult (Unit {0}) × O.State → AppResult ℕ × O.State
  connected socket (err e, s) = (err e, s)
  connected socket (ok _, s) = (ok socket, s)

  abbrev pub configured : SocketAddr → ℕ → AppResult (Unit {0}) × O.State → AppResult ℕ × O.State
  configured target socket (err e, s) = (err e, s)
  configured target socket (ok _, s) = connected socket (U.connect socket target s)

  abbrev pub bound : SocketAddr → AppResult ℕ × O.State → AppResult ℕ × O.State
  bound target (err e, s) = (err e, s)
  bound target (ok socket, s) = configured target socket (configure_udp_socket O socket s)

  unfoldable pub build_udp_upstream_socket : SocketAddr → O.State → AppResult ℕ × O.State
  build_udp_upstream_socket target s = bound target (U.bind (bind_addr target) s)

  -- `ConnectedUdpEndpoint::send` and `recv`.
  unfoldable pub endpoint_send : ℕ → Packet → O.State → AppResult (Unit {0}) × O.State
  endpoint_send socket packet s = let (sent, s1) = U.send socket packet s in (whole packet sent, s1)

  unfoldable pub endpoint_recv : ℕ → O.State → AppResult (ℕ × SocketAddr) × O.State
  endpoint_recv socket s =
      let (got, s1) = U.recv socket s in
      ((do packet ← got; peer ← U.peer_addr socket s1; ok (length packet, peer)), s1)

  -- `UdpResponseSink::send`: the listener may be gone.
  unfoldable pub response_send :
      Option ℕ → Packet → SocketAddr → O.State → AppResult (Unit {0}) × O.State
  response_send none packet to s = (err (io ErrorKind.broken_pipe (text "UDP listener closed")), s)
  response_send (some socket) packet to s =
      let (sent, s1) = U.send_to socket packet to s in (whole packet sent, s1)
