-- ===== src/Runtime/Signal.antt =====
-- `wait_for_termination_signal` of src/runtime.rs on Unix.
use vorto.Result.{AppResult, ok, ◌>>◌}

-- The arms of its `select!`: `ctrl_c` yields, or the signal to terminate comes.
pub data SignalArm : Type 0 where
  ctrl_c : AppResult (Unit {0}) → SignalArm
  terminated : SignalArm

abbrev pub arm_result : SignalArm → AppResult (Unit {0})
arm_result (ctrl_c result) = result
arm_result terminated = ok tt

-- What the installation of the handler gives comes first.
unfoldable pub wait_for_termination_signal : AppResult (Unit {0}) → SignalArm → AppResult (Unit {0})
wait_for_termination_signal installed arm = installed >> arm_result arm
