-- ===== src/Runtime/Relay/UdpOrder.antt =====
-- `run_udp_tunnel` of src/runtime.rs hands the datagrams to the proxy in the order in which they come.
use vorto.Prelude.{
  ◌≡◌, ◌≢◌, refl, Bool, true, false, List, [], ◌∷◌, ◌++◌, map, arith, All, Bool-cases, inl, inr,
}
use vorto.Prelude.{take}
use vorto.Net.{SocketAddr}
use vorto.Result.{AppResult, AppError, ok, err}
use vorto.Runtime.Relay.Udp.{
  Packet, udp_packet_buffer_size, Proxy, Arm, received, receive_failed, shut_down, waiting,
  returned, ends_loop, forward, run_udp_tunnel,
}

abbrev pub Datagram : Type 0
Datagram = Packet × SocketAddr

-- Datagrams that come while no stop was sent.
abbrev pub arrivals : List Datagram → List Arm
arrivals = map (λ d. received d.0 d.1 false)

-- A stop has been sent whenever the loop looks.
abbrev pub sees_stop : Arm → Bool
sees_stop (received packet client stopped) = stopped
sees_stop (receive_failed e stopped) = stopped
sees_stop shut_down = true

module _ (P : Proxy) (target : SocketAddr) where
  -- The proxy after it was given the datagrams one by one, whatever it answered.
  unfoldable pub handed : List Datagram → P.State → P.State
  handed [] s = s
  handed ((packet, client) ∷ ds) s =
      handed ds (P.send_packet (take udp_packet_buffer_size packet) client target s).1

  calm-never_ends : (r : AppResult (Unit {0})) → ends_loop P target r false ≡ false
  calm-never_ends (ok _) = refl
  calm-never_ends (err e) = refl

  run-arrivals :
      (ds : List Datagram) (arms : List Arm) (s : P.State)
      → run_udp_tunnel P target (arrivals ds ++ arms) s ≡ run_udp_tunnel P target arms (handed ds s)
  unfolding run_udp_tunnel handed
  run-arrivals [] arms s = refl
  run-arrivals ((packet, client) ∷ ds) arms s =
      rw (calm-never_ends (forward P target packet client s).0)
        (run-arrivals ds arms (forward P target packet client s).1)

  -- While no stop was sent, a UDP tunnel hands every datagram that it receives to the proxy, once
  -- and in the order of their arrival, with its client and the target, whatever the proxy
  -- answers. It then waits, returns without an error when it is told to stop, or returns the
  -- error of a failed receive.
  pub run_udp_tunnel-relays :
      (ds : List Datagram) (arms : List Arm) (e : AppError) (s : P.State)
      → (run_udp_tunnel P target (arrivals ds ++ []) s ≡ (waiting, handed ds s))
        × (run_udp_tunnel P target (arrivals ds ++ shut_down ∷ arms) s
            ≡ (returned (ok tt), handed ds s))
        × (run_udp_tunnel P target (arrivals ds ++ receive_failed e false ∷ arms) s
            ≡ (returned (err e), handed ds s))
  unfolding run_udp_tunnel
  run_udp_tunnel-relays ds arms e s = (
    run-arrivals ds [] s,
    run-arrivals ds (shut_down ∷ arms) s,
    run-arrivals ds (receive_failed e false ∷ arms) s,
  )

  -- Once a stop was sent the loop returns no error.
  run_udp_tunnel_stopped :
      (arms : List Arm) (s : P.State) (e : AppError)
      → All (λ a. sees_stop a ≡ true) arms
      → (run_udp_tunnel P target arms s).0 ≢ returned (err e)
  unfolding run_udp_tunnel
  run_udp_tunnel_stopped [] s e h k = ground arith
  run_udp_tunnel_stopped (shut_down ∷ arms) s e h k = ground arith
  run_udp_tunnel_stopped (receive_failed x stopped ∷ arms) s e (h, hs) k = ground (arith, h)
  run_udp_tunnel_stopped (received packet client stopped ∷ arms) s e (h, hs) k =
      elim (Bool-cases (ends_loop P target (forward P target packet client s).0 stopped)) [
        | inl over ↦ ground (arith, rw over at k)
        | inr on ↦
            run_udp_tunnel_stopped arms (forward P target packet client s).1 e hs (rw on at k)
      ]
