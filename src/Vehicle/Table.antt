-- ===== src/Vehicle/Table.antt =====
-- crates/a2g-core/src/vehicle.rs: the table `VHAL_PROPERTIES`, in the source's order.
use Prim.Native.String.{String}
use a2g_cli.Base.{List, [], ◌∷◌, ◌++◌}
use a2g_cli.Base.Text.{Text, codes}
use a2g_cli.Vehicle.Types.{
  VehicleDomain, comfort, sensitive, forbidden, non_vehicle, VhalAccessMode, read, write,
  read_write,
}

pub record VhalPropertyMapping : Type 0 where
  pub name : Text
  pub access : VhalAccessMode
  pub domain : VehicleDomain
  pub description : String

abbrev vhal : String → VhalAccessMode → VehicleDomain → String → VhalPropertyMapping
vhal n a d s = record { name = codes n; access = a; domain = d; description = s }

unfoldable pub comfort_properties : List VhalPropertyMapping
comfort_properties =
    vhal "HVAC_TEMPERATURE_SET" read_write comfort "Set per-zone cabin target temperature"
    ∷ vhal "HVAC_FAN_SPEED" read_write comfort "Set HVAC fan speed level"
    ∷ vhal "HVAC_FAN_DIRECTION" read_write comfort "Set HVAC airflow direction"
    ∷ vhal "HVAC_POWER_ON" read_write comfort "Toggle HVAC system power"
    ∷ vhal "HVAC_DEFROSTER" read_write comfort "Toggle front/rear defroster"
    ∷ vhal "HVAC_AUTO_ON" read_write comfort "Toggle HVAC automatic mode"
    ∷ vhal "HVAC_TEMPERATURE_CURRENT" read comfort
        "Read current cabin temperature (telemetry; read-only)"
    ∷ vhal "HVAC_SEAT_TEMPERATURE" read_write comfort "Set seat heating or cooling level"
    ∷ vhal "SEAT_MEMORY_SELECT" write comfort "Recall a stored seat memory preset"
    ∷ vhal "SEAT_FORE_AFT_MOVE" write comfort "Move seat forward or rearward"
    ∷ vhal "SEAT_HEIGHT_MOVE" write comfort "Raise or lower seat height"
    ∷ vhal "SEAT_LUMBAR_FORE_AFT_MOVE" write comfort "Adjust lumbar support depth"
    ∷ vhal "SEAT_HEADREST_ANGLE_MOVE" write comfort "Adjust headrest angle"
    ∷ vhal "CABIN_LIGHTS_SWITCH" read_write comfort "Control cabin interior light switch state"
    ∷ vhal "CABIN_LIGHTS_STATE" read comfort "Read cabin light state (telemetry; read-only)"
    ∷ vhal "READING_LIGHTS_SWITCH" read_write comfort "Toggle individual reading lights per zone"
    ∷ vhal "DISPLAY_BRIGHTNESS" read_write comfort "Set infotainment display brightness"
    ∷ []

unfoldable pub sensitive_properties : List VhalPropertyMapping
sensitive_properties =
    vhal "WINDOW_POS" read_write sensitive "Set window absolute position (0=closed, 100=fully open)"
    ∷ vhal "WINDOW_MOVE" write sensitive "Command continuous window movement (signed velocity)"
    ∷ vhal "DOOR_LOCK" read_write sensitive "Lock or unlock a door"
    ∷ vhal "DOOR_MOVE" write sensitive "Command powered door open/close movement"
    ∷ vhal "EV_CHARGE_PORT_OPEN" read_write sensitive "Open or close EV charge port door"
    ∷ []

unfoldable pub telemetry_properties : List VhalPropertyMapping
telemetry_properties =
    vhal "PERF_VEHICLE_SPEED" read non_vehicle
      "Current vehicle speed in m/s; converted to mm/s via speed_kph_to_mmps() at ingress"
    ∷ vhal "PERF_VEHICLE_SPEED_DISPLAY" read non_vehicle
        "Display-filtered vehicle speed (speedometer value)"
    ∷ vhal "GEAR_SELECTION" read non_vehicle
        "Selected gear (Park/Reverse/Neutral/Drive); maps to VehicleState::gear"
    ∷ vhal "CURRENT_GEAR" read non_vehicle
        "Currently engaged gear (actual, may differ from selected during shift)"
    ∷ vhal "ENGINE_RPM" read non_vehicle "Engine RPM (telemetry; read-only)"
    ∷ vhal "IGNITION_STATE" read non_vehicle
        "Ignition / engine-running state (telemetry; read-only)"
    ∷ []

unfoldable pub forbidden_properties : List VhalPropertyMapping
forbidden_properties =
    vhal "CRUISE_CONTROL_COMMAND" write forbidden
      "Write ADAS adaptive cruise-control command (ADAS write — Forbidden)"
    ∷ vhal "LANE_CENTERING_ASSIST_COMMAND" write forbidden
        "Write lane-centering assist command (ADAS write — Forbidden)"
    ∷ vhal "HANDS_ON_DETECTION_ENABLED" read_write forbidden
        "Enable/disable hands-on detection (ADAS safety override — Forbidden)"
    ∷ vhal "ELECTRONIC_STABILITY_CONTROL_ENABLED" read_write forbidden
        "Enable/disable electronic stability control (chassis safety — Forbidden)"
    ∷ vhal "EV_STOPPING_MODE" read_write forbidden
        "Set one-pedal/creep drive regen mode (propulsion write — Forbidden)"
    ∷ vhal "EV_CHARGE_CURRENT_DRAW_LIMIT" read_write forbidden
        "Override maximum charge current draw (propulsion write — Forbidden)"
    ∷ []

unfoldable pub vhal_properties : List VhalPropertyMapping
unfolding comfort_properties sensitive_properties telemetry_properties forbidden_properties
vhal_properties =
    comfort_properties ++ sensitive_properties ++ telemetry_properties ++ forbidden_properties
