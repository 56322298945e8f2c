-- ===== src/Vehicle/Gate.antt =====
-- crates/a2g-core/src/vehicle.rs: the gates on the vehicle's physical state.
use a2g_cli.Base.{Bool, ◌&&◌, [], ◌∷◌, if◌then◌else◌, any, leb}
use a2g_cli.Base.Text.{Text, codes, text_eq}
use a2g_cli.Vehicle.Types.{VehicleState, is_driver, speed_gate_mmps, is_parked_and_stopped}

-- The reason of `Deny` is a constant text; its name stands for it.
pub data StateReason : Type 0 where
  vehicle_state_violation comfort_context_violation : StateReason

pub data StateVerdict : Type 0 where
  allow : StateVerdict
  deny : StateReason → StateVerdict

unfoldable pub evaluate_vehicle_state : Text → VehicleState → StateVerdict
evaluate_vehicle_state tool s =
    if is_parked_and_stopped s then allow else deny vehicle_state_violation

unfoldable pub is_comfort_seat_tool : Text → Bool
is_comfort_seat_tool tool =
    any (λ name. text_eq tool (codes name))
      ("SEAT_FORE_AFT_MOVE" ∷ "SEAT_HEIGHT_MOVE" ∷ "SEAT_LUMBAR_FORE_AFT_MOVE"
        ∷ "SEAT_HEADREST_ANGLE_MOVE" ∷ "vehicle.seat.fore_aft" ∷ "vehicle.seat.height"
        ∷ "vehicle.seat.lumbar" ∷ "vehicle.seat.headrest" ∷ [])

unfoldable pub evaluate_comfort_state : Text → VehicleState → StateVerdict
evaluate_comfort_state tool s =
    if is_comfort_seat_tool tool && is_driver s.actor && leb speed_gate_mmps s.speed_mmps
    then deny comfort_context_violation
    else allow
