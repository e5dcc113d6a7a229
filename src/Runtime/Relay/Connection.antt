-- ===== src/Runtime/Relay/Connection.antt =====
-- `wait_for_shutdown` and `handle_tcp_connection` of src/runtime.rs. Where a `select!` waits, the arm
-- that it takes is an argument, with what that arm yields.
use vorto.Prelude.{Bool, true, false, Option, none, some, List, [], ◌∷◌, ◌++◌}
use vorto.Text.{Text, text}
use vorto.Result.{AppResult, io, ErrorKind, ok, err, ◌>>◌}

-- What a receiver of the stop channel can hear: a value, or that the sender is gone.
pub data Change : Type 0 where
  sent : Bool → Change
  hung_up : Change

-- The changes that are left when `wait_for_shutdown` returns, if it does: `borrow` gives the value at
-- first, and `changed` waits for the next change.
unfoldable pub wait_for_shutdown : Bool → List Change → Option (List Change)
wait_for_shutdown true changes = some changes
wait_for_shutdown false [] = none
wait_for_shutdown false (hung_up ∷ changes) = some changes
wait_for_shutdown false (sent value ∷ changes) = wait_for_shutdown value changes

-- The arms of the `select!` around `timeout(.., TcpStream::connect(target))`.
pub data ConnectArm : Type 0 where
  connects : AppResult (Unit {0}) → ConnectArm
  times_out shut_down_while_connecting : ConnectArm

pub data CopyArm : Type 0 where
  copied : AppResult (Unit {0}) → CopyArm
  shut_down_while_copying : CopyArm

-- `TCP_CONNECT_TIMEOUT`, as its `Debug` shows it.
abbrev pub tcp_connect_timeout : Text
tcp_connect_timeout = text "10s"

-- The two calls of `set_nodelay`.
unfoldable pub configure_tcp_streams :
    AppResult (Unit {0}) → AppResult (Unit {0}) → AppResult (Unit {0})
configure_tcp_streams inbound outbound = inbound >> outbound

unfoldable pub handle_tcp_connection_copy : CopyArm → AppResult (Unit {0})
handle_tcp_connection_copy (copied result) = result
handle_tcp_connection_copy shut_down_while_copying = ok tt

unfoldable pub handle_tcp_connection :
    Text → ConnectArm → AppResult (Unit {0}) → AppResult (Unit {0}) → CopyArm → AppResult (Unit {0})
unfolding configure_tcp_streams handle_tcp_connection_copy
handle_tcp_connection target (connects (err e)) inbound outbound copy = err e
handle_tcp_connection target (connects (ok _)) inbound outbound copy =
    configure_tcp_streams inbound outbound >> handle_tcp_connection_copy copy
handle_tcp_connection target times_out inbound outbound copy = err (
    io ErrorKind.timed_out
      (text "timed out connecting to target " ++ target ++ text " after " ++ tcp_connect_timeout))
handle_tcp_connection target shut_down_while_connecting inbound outbound copy = ok tt
