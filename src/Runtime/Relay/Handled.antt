-- ===== src/Runtime/Relay/Handled.antt =====
-- How a run of the task of a connection of src/runtime.rs relates to `handle_tcp_connection` as a
-- function.
use vorto.Prelude.{Bool, true, false, List, [], ◌∷◌}
use vorto.Text.{Text}
use vorto.Result.{AppResult, ok}
use vorto.Runtime.Relay.Handling.{
  Stage, connecting, copying, ended, Handling, Event, connected, connect_failed, timed_out, told,
  copy_ended,
}

abbrev result_of : Stage → AppResult (Unit {0})
result_of connecting = ok tt
result_of copying = ok tt
result_of (ended r) = r

-- An arm of the stop channel was taken.
abbrev pub was_told : List Event → Bool
was_told [] = false
was_told (told ∷ es) = true
was_told (timed_out ∷ es) = was_told es
was_told (connect_failed e ∷ es) = was_told es
was_told (connected inbound outbound ∷ es) = was_told es
was_told (copy_ended result ∷ es) = was_told es
