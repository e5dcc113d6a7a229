-- ===== src/Examples/Relays.antt =====
-- Runs of the tunnel tasks of Runtime/Relay.
use vorto.Prelude.{
  ℕ, ◌≡◌, ◌≤◌, refl, ◌⊎◌, true, false, List, [], ◌∷◌, ◌++◌, arith, ◌==◌, if◌then◌else◌,
}
use vorto.Text.{text}
use vorto.Net.{SocketAddr, v4, v6}
use vorto.Result.{io, os, ErrorKind, ok, err}
use vorto.Runtime.Relay.Tcp.{
  Channel, active, aborted, finished, Phase, accepting, draining, aborting, returned, Tunnel,
  started, Step, Works, Reach, here,
}
use vorto.Runtime.Relay.Tcp as Tcp
use vorto.Runtime.Relay.TcpSafety.{IsClean, is_failed, returned-IsClean, stopped-never_fails}
use vorto.Runtime.Relay.Draining.{rests, works_on, steps_left, drain_terminates}
use vorto.Runtime.Relay.Driven.{HasDriven, is_returned}
use vorto.Runtime.Relay.Return.{DrivenTo, stop-returns}
use vorto.Runtime.Relay.Udp.{Packet, Proxy, Arm, receive_failed, Outcome, waiting, run_udp_tunnel}
use vorto.Runtime.Relay.UdpOrder.{Datagram, arrivals, handed, run_udp_tunnel-relays}

-- A connection is accepted and works while a stop is sent. It ends in time and is joined.
abbrev serving : Tunnel
serving = record started { connections = (0, active) ∷ []; next_id = 1 }

abbrev told : Tunnel
told = record serving { channel = record { stopped = true; closed = false } }

abbrev in_drain : Tunnel
in_drain = record told { phase = draining }

abbrev ended : Tunnel
ended = record in_drain { connections = (0, finished) ∷ [] }

abbrev empty : Tunnel
empty = record in_drain { connections = [] }

abbrev done : Tunnel
done = record empty { phase = returned (ok tt) }

told-reached : Reach started told
told-reached =
    Reach.then (Reach.then here (Step.works (Works.in_loop refl (Tcp.Accepting.accepted refl))))
      (Step.outside (Tcp.Outside.send_true refl))

in_drain-reached : Reach started in_drain
in_drain-reached =
    Reach.then told-reached (Step.works (Works.in_loop refl (Tcp.Accepting.shut_down refl refl)))

done-reached : Reach started done
done-reached =
    Reach.then
      (Reach.then
        (Reach.then in_drain-reached (
          Step.works
            (Works.connection_ends (Tcp.Ends.ends [] [] 0 active (λ e. ground arith) refl refl))))
        (Step.works
          (Works.in_drain refl (Tcp.Drains.drain_joined (Tcp.Joins.joins [] [] 0 refl refl)))))
      (Step.works (Works.in_drain refl (Tcp.Drains.drained refl refl)))

returned-IsClean_example : IsClean (ok tt) done
returned-IsClean_example = returned-IsClean done (ok tt) done-reached refl

stopped-never_fails_example : is_failed in_drain.phase ≡ false
stopped-never_fails_example =
    stopped-never_fails told in_drain refl refl
      (Reach.then here (Step.works (Works.in_loop refl (Tcp.Accepting.shut_down refl refl))))

drain_terminates_example :
    (3 ≤ steps_left in_drain) × ((is_returned done.phase ≡ true) ⊎ HasDriven done)
drain_terminates_example = drain_terminates 3 in_drain done in_drain-reached refl (
    works_on (Works.connection_ends (Tcp.Ends.ends [] [] 0 active (λ e. ground arith) refl refl)) (
      works_on (Works.in_drain refl (Tcp.Drains.drain_joined (Tcp.Joins.joins [] [] 0 refl refl)))
        (works_on (Works.in_drain refl (Tcp.Drains.drained refl refl)) rests)))

stop-returns_example : (t : Tunnel) × DrivenTo told t × (t.phase ≡ returned (ok tt))
stop-returns_example = stop-returns told told-reached refl refl

abbrev client_port : SocketAddr → ℕ
client_port (v4 ip port) = port
client_port (v6 groups port scope) = port

-- A proxy that keeps what it is given, and takes packets to one port only.
abbrev log : Proxy
log = record {
  State = List (Packet × SocketAddr);
  send_packet = λ packet client to seen. (
    if client_port client == 9 then err (io ErrorKind.other (text "refused")) else ok tt,
    (packet, client) ∷ seen,
  );
}

abbrev client : ℕ → SocketAddr
client port = v4 (record { a = 10; b = 0; c = 0; d = 1 }) port

abbrev upstream : SocketAddr
upstream = v4 (record { a = 10; b = 0; c = 0; d = 2 }) 53

abbrev two_datagrams : List Datagram
two_datagrams = ((1 ∷ 2 ∷ []), client 9) ∷ ((3 ∷ []), client 7) ∷ []

relayed_in_order :
    run_udp_tunnel log upstream (arrivals two_datagrams ++ Arm.shut_down ∷ []) []
    ≡ (Outcome.returned (ok tt), ((3 ∷ []), client 7) ∷ ((1 ∷ 2 ∷ []), client 9) ∷ [])
unfolding run_udp_tunnel
relayed_in_order = refl

run_udp_tunnel-relays_example :
    (run_udp_tunnel log upstream (arrivals two_datagrams ++ []) []
      ≡ (waiting, handed log upstream two_datagrams []))
    × (run_udp_tunnel log upstream (arrivals two_datagrams ++ Arm.shut_down ∷ []) []
        ≡ (Outcome.returned (ok tt), handed log upstream two_datagrams []))
    × (run_udp_tunnel log upstream (arrivals two_datagrams ++ receive_failed (os 5) false ∷ []) []
        ≡ (Outcome.returned (err (os 5)), handed log upstream two_datagrams []))
run_udp_tunnel-relays_example = run_udp_tunnel-relays log upstream two_datagrams [] (os 5) []
