-- ===== src/Vehicle/Types.antt =====
-- crates/a2g-core/src/vehicle.rs: domains, gears, actors, the vehicle state and its constants.
use a2g_cli.Base.{ℕ, Bool, true, false, ◌&&◌, ltb}

pub data VehicleDomain : Type 0 where
  comfort convenience sensitive forbidden non_vehicle : VehicleDomain

pub data Gear : Type 0 where
  park reverse neutral drive : Gear

pub data Actor : Type 0 where
  driver passenger : Actor

-- `domain == VehicleDomain::Forbidden`, and so on for the other comparisons that the code makes.
abbrev pub is_forbidden_domain : VehicleDomain → Bool
is_forbidden_domain forbidden = true
is_forbidden_domain _ = false

abbrev pub is_sensitive_domain : VehicleDomain → Bool
is_sensitive_domain sensitive = true
is_sensitive_domain _ = false

abbrev pub is_comfort_domain : VehicleDomain → Bool
is_comfort_domain comfort = true
is_comfort_domain _ = false

abbrev pub is_park : Gear → Bool
is_park park = true
is_park _ = false

abbrev pub is_driver : Actor → Bool
is_driver driver = true
is_driver passenger = false

abbrev pub speed_gate_mmps : ℕ
speed_gate_mmps = 1389

abbrev pub fail_safe_speed_mmps : ℕ
fail_safe_speed_mmps = 277500

pub record VehicleState : Type 0 where
  pub speed_mmps : ℕ
  pub gear : Gear
  pub actor : Actor

abbrev pub fail_safe : VehicleState
fail_safe = record { speed_mmps = fail_safe_speed_mmps; gear = drive; actor = driver }

unfoldable pub is_parked_and_stopped : VehicleState → Bool
is_parked_and_stopped s = ltb s.speed_mmps speed_gate_mmps && is_park s.gear

-- How the state reached the decision; its spellings are "attested", "operator_trusted", "none".
pub data StateTrust : Type 0 where
  attested operator_trusted untrusted : StateTrust

pub record VerifiedVehicleState : Type 0 where
  pub state : VehicleState
  pub trust_basis : StateTrust

unfoldable pub from_operator_trusted : VehicleState → VerifiedVehicleState
from_operator_trusted s = record { state = s; trust_basis = operator_trusted }

pub data VhalAccessMode : Type 0 where
  read write read_write : VhalAccessMode

abbrev pub is_read : VhalAccessMode → Bool
is_read read = true
is_read _ = false
