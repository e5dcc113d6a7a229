-- ===== src/Runtime/Relay/Handling.antt =====
-- One connection of src/runtime.rs as a task: `handle_tcp_connection` as a step relation beside the stop
-- channel, and which arms of the function are those of a run.
use vorto.Prelude.{◌≡◌, true, List, [], ◌∷◌, ◌++◌}
use vorto.Text.{Text, text}
use vorto.Result.{AppResult, AppError, io, ErrorKind, ok, err}
use vorto.Runtime.Relay.Tcp.{Channel, wakes}
use vorto.Runtime.Relay.Connection.{
  ConnectArm, connects, times_out, shut_down_while_connecting, CopyArm, copied,
  shut_down_while_copying, tcp_connect_timeout, configure_tcp_streams,
}

-- Where the task stands: in the `select!` around the connect, in the one around the copy, or at its
-- end.
pub data Stage : Type 0 where
  connecting copying : Stage
  ended : AppResult (Unit {0}) → Stage

pub record Handling : Type 0 where
  pub channel : Channel
  pub stage : Stage

-- The `?` after `configure_tcp_streams`.
abbrev pub after_configure : AppResult (Unit {0}) → Stage
after_configure (err e) = ended (err e)
after_configure (ok _) = copying

abbrev pub connect_timed_out : Text → AppError
connect_timed_out target =
    io ErrorKind.timed_out
      (text "timed out connecting to target " ++ target ++ text " after " ++ tcp_connect_timeout)

-- What a step of the task is about: the connect with what the two calls of `set_nodelay` give, its
-- failure or timeout, the stop channel, or the end of the copy.
pub data Event : Type 0 where
  connected : AppResult (Unit {0}) → AppResult (Unit {0}) → Event
  connect_failed : AppError → Event
  timed_out told : Event
  copy_ended : AppResult (Unit {0}) → Event

pub data Step (target : Text) (s t : Handling) : Event → Type 0 where
  connects_in_time :
      (inbound outbound : AppResult (Unit {0}))
      → s.stage ≡ connecting
      → t ≡ record s { stage = after_configure (configure_tcp_streams inbound outbound) }
      → Step target s t (connected inbound outbound)
  fails_to_connect :
      (e : AppError)
      → s.stage ≡ connecting
      → t ≡ record s { stage = ended (err e) }
      → Step target s t (connect_failed e)
  times_out_connecting :
      s.stage ≡ connecting
      → t ≡ record s { stage = ended (err (connect_timed_out target)) }
      → Step target s t timed_out
  told_while_connecting :
      s.stage ≡ connecting
      → wakes s.channel ≡ true
      → t ≡ record s { stage = ended (ok tt) }
      → Step target s t told
  copies :
      (result : AppResult (Unit {0}))
      → s.stage ≡ copying
      → t ≡ record s { stage = ended result }
      → Step target s t (copy_ended result)
  told_while_copying :
      s.stage ≡ copying
      → wakes s.channel ≡ true
      → t ≡ record s { stage = ended (ok tt) }
      → Step target s t told

-- The steps of the task with their events, between which the channel changes.
pub data Steps (target : Text) : List Event → Handling → Handling → Type 0 where
  none_taken : {s : Handling} → Steps target [] s s
  then_step :
      {es : List Event} {s t u : Handling} (e : Event)
      → Step target s t e
      → Steps target es t u
      → Steps target (e ∷ es) s u
  send_true :
      {es : List Event} {s u : Handling}
      → Steps target es
          (record s { channel = record { stopped = true; closed = s.channel.closed } })
          u
      → Steps target es s u
  drop_sender :
      {es : List Event} {s u : Handling}
      → Steps target es
          (record s { channel = record { stopped = s.channel.stopped; closed = true } })
          u
      → Steps target es s u

-- The arm of the copy is the one that the rest of a run took.
abbrev pub TakesCopy : List Event → CopyArm → Type 0
TakesCopy [] copy = Unit
TakesCopy (copy_ended result ∷ es) copy = copy ≡ copied result
TakesCopy (told ∷ es) copy = copy ≡ shut_down_while_copying
TakesCopy (timed_out ∷ es) copy = ⊥
TakesCopy (connect_failed e ∷ es) copy = ⊥
TakesCopy (connected inbound outbound ∷ es) copy = ⊥

-- The arms and the results of `set_nodelay` are those of a run with these events.
abbrev pub Takes :
    List Event → ConnectArm → AppResult (Unit {0}) → AppResult (Unit {0}) → CopyArm → Type 0
Takes [] connect inbound outbound copy = Unit
Takes (connected inbound' outbound' ∷ es) connect inbound outbound copy =
    (connect ≡ connects (ok tt)) × (inbound ≡ inbound') × (outbound ≡ outbound') × TakesCopy es copy
Takes (connect_failed e ∷ es) connect inbound outbound copy = connect ≡ connects (err e)
Takes (timed_out ∷ es) connect inbound outbound copy = connect ≡ times_out
Takes (told ∷ es) connect inbound outbound copy = connect ≡ shut_down_while_connecting
Takes (copy_ended result ∷ es) connect inbound outbound copy = ⊥
