-- ===== src/Runtime/System.antt =====
-- What src/runtime.rs asks of the operating system and of the asynchronous runtime: sockets and socket
-- options, tasks with their handles, and the channels by which tasks are told to stop.
use vorto.Prelude.{
  ℕ, suc, ◌*◌, ◌==◌, Bool, not, List, [], ◌∷◌, ◌++◌, keep_if, is_yes, ℕ_discrete, contains,
  if◌then◌else◌,
}
use vorto.Text.{Text, text}
use vorto.Net.{SocketAddr, parse_socket_addr, addr_error}
use vorto.Result.{AppResult, io, os, ErrorKind, ok, err, ok_or}

pub data SocketOption : Type 0 where
  so_rcvbuf so_sndbuf : SocketOption

-- How a task's handle resolves while `timeout` waits for it: the task returned, it panicked or was
-- cancelled, or the grace period ran out.
pub data Ending : Type 0 where
  completed failed timed_out : Ending

pub record Os : Type 1 where
  pub State : Type 0
  pub bind_tcp : Text → State → AppResult (Unit {0}) × State
  pub bind_udp : Text → State → AppResult ℕ × State
  pub setsockopt : ℕ → SocketOption → ℕ → State → ℕ × State
  pub last_os_error : State → ℕ
  pub await_within_grace : ℕ → State → Ending × State
  pub abort : ℕ → State → State

-- The operating system, the tasks that run, and the channels that carry `true`.
pub record Rt (O : Os) : Type 0 where
  pub os_state : O.State
  pub running : List ℕ
  pub next_task : ℕ
  pub stopped : List ℕ
  pub next_channel : ℕ

abbrev pub udp_socket_buffer_size : ℕ
udp_socket_buffer_size = 4 * 1024 * 1024

-- `parse_socket_addr` of src/runtime.rs.
unfoldable pub parse_labelled_addr : Text → Text → AppResult SocketAddr
parse_labelled_addr value label = ok_or (parse_socket_addr value) (
    io ErrorKind.invalid_input
      (text "Invalid " ++ label ++ text " address " ++ value ++ text ": " ++ addr_error))

module _ (O : Os) where
  unfoldable pub set_socket_option : ℕ → SocketOption → ℕ → O.State → AppResult (Unit {0}) × O.State
  set_socket_option fd name value s =
      let (result, s1) = O.setsockopt fd name value s in
      (if result == 0 then ok tt else err (os (O.last_os_error s1)), s1)

  -- The second option is set only if the first call succeeds.
  unfoldable pub tune_socket_buffers : ℕ → ℕ → ℕ → O.State → AppResult (Unit {0}) × O.State
  unfolding set_socket_option
  tune_socket_buffers fd recv_bytes send_bytes s =
      let (received, s1) = set_socket_option fd so_rcvbuf recv_bytes s in
      elim received [ err e ↦ (err e, s1) | ok _ ↦ set_socket_option fd so_sndbuf send_bytes s1 ]

  unfoldable pub configure_udp_socket : ℕ → O.State → AppResult (Unit {0}) × O.State
  unfolding tune_socket_buffers
  configure_udp_socket fd s = tune_socket_buffers fd udp_socket_buffer_size udp_socket_buffer_size s

  -- `tokio::spawn`: the handle is the number of the new task.
  unfoldable pub spawn_task : Rt O → ℕ × Rt O
  spawn_task rt = (
    rt.next_task,
    record rt { running = rt.next_task ∷ rt.running; next_task = suc rt.next_task },
  )

  -- `JoinHandle::is_finished`.
  abbrev pub runs : Rt O → ℕ → Bool
  runs rt handle = contains ℕ_discrete rt.running handle

  -- The task of the handle has come to its end.
  unfoldable pub ended : ℕ → Rt O → Rt O
  ended handle rt = record rt {
    running = keep_if (λ j. not (is_yes (ℕ_discrete handle j))) rt.running;
  }

  -- `wait_for_task_shutdown`: a task that outlives the grace period is aborted and awaited.
  unfoldable pub wait_for_task_shutdown : ℕ → Rt O → Rt O
  unfolding ended
  wait_for_task_shutdown handle rt =
      let (ending, s1) = O.await_within_grace handle rt.os_state in
      elim ending [
        | completed ↦ ended handle (record rt { os_state = s1 })
        | failed ↦ ended handle (record rt { os_state = s1 })
        | timed_out ↦ ended handle (record rt { os_state = O.abort handle s1 })
      ]

  unfoldable pub wait_all : List ℕ → Rt O → Rt O
  unfolding wait_for_task_shutdown
  wait_all [] rt = rt
  wait_all (h ∷ hs) rt = wait_all hs (wait_for_task_shutdown h rt)

  -- `stop_tx.send(true)`.
  unfoldable pub send_stop : ℕ → Rt O → Rt O
  send_stop channel rt = record rt { stopped = channel ∷ rt.stopped }

  -- `watch::channel(false)`.
  unfoldable pub new_channel : Rt O → ℕ × Rt O
  new_channel rt = (rt.next_channel, record rt { next_channel = suc rt.next_channel })
