-- ===== src/Examples/Connections.antt =====
-- A connection whose tunnel is stopped while it copies.
use vorto.Prelude.{◌≡◌, ◌≤◌, ◌⊎◌, refl, true, false, List, [], ◌∷◌, length}
use vorto.Text.{Text, text}
use vorto.Result.{AppResult, ok}
use vorto.Runtime.Relay.Tcp.{Channel}
use vorto.Runtime.Relay.Connection.{configure_tcp_streams}
use vorto.Runtime.Relay.Handling.{
  Handling, connecting, copying, ended, Event, connected, Step, connects_in_time, Steps, none_taken,
  then_step, send_true,
}
use vorto.Runtime.Relay.Ending.{handle_terminates}

abbrev target : Text
target = text "127.0.0.1:80"

abbrev told : Channel
told = record { stopped = true; closed = false }

abbrev accepted : Handling
accepted = record { channel = record told { stopped = false }; stage = connecting }

abbrev done : Handling
done = record { channel = told; stage = ended (ok tt) }

abbrev copies_when_told : Handling
copies_when_told = record { channel = told; stage = copying }

abbrev both_events : List Event
both_events = connected (ok tt) (ok tt) ∷ Event.told ∷ []

told_to_stop : Steps target (connected (ok tt) (ok tt) ∷ []) accepted copies_when_told
unfolding configure_tcp_streams
told_to_stop = then_step _ (connects_in_time (ok tt) (ok tt) refl refl) (send_true none_taken)

handle_terminates_example :
    (length (connected (ok tt) (ok tt) ∷ []) ≤ 2)
    × (((r : AppResult (Unit {0})) × (copies_when_told.stage ≡ ended r))
        ⊎ Step target copies_when_told
            (record copies_when_told { stage = ended (ok tt) })
            Event.told)
handle_terminates_example =
    handle_terminates target (connected (ok tt) (ok tt) ∷ []) accepted copies_when_told told_to_stop
      refl
