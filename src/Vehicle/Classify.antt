-- ===== src/Vehicle/Classify.antt =====
-- crates/a2g-core/src/vehicle.rs: `classify_vhal_property` and `classify_vehicle_tool`.
use Prim.Native.String.{String}
use a2g_cli.Base.{Bool, List, [], ◌∷◌, if◌then◌else◌, any}
use a2g_cli.Base.Text.{Text, codes, text_eq, starts_with}
use a2g_cli.Vehicle.Types.{
  VehicleDomain, comfort, convenience, sensitive, forbidden, non_vehicle, is_read,
}
use a2g_cli.Vehicle.Table.{VhalPropertyMapping, vhal_properties}

-- The first row of that name decides; a read-only row is no capability.
unfoldable pub classify_from : List VhalPropertyMapping → Text → VehicleDomain
classify_from [] name = non_vehicle
classify_from (m ∷ ms) name =
    let rest = classify_from ms name in
    if text_eq m.name name then if is_read m.access then non_vehicle else m.domain else rest

unfoldable pub classify_vhal_property : Text → VehicleDomain
unfolding classify_from vhal_properties
classify_vhal_property name = classify_from vhal_properties name

-- `tool.starts_with(p)` for one of the prefixes.
abbrev pub has_prefix : List String → Text → Bool
has_prefix ps tool = any (λ p. starts_with tool (codes p)) ps

abbrev pub forbidden_prefixes : List String
forbidden_prefixes =
    "vehicle.powertrain." ∷ "vehicle.chassis." ∷ "vehicle.adas." ∷ "vehicle.drive."
    ∷ "vehicle.steering." ∷ "vehicle.braking." ∷ "vehicle.throttle." ∷ []

abbrev pub sensitive_prefixes : List String
sensitive_prefixes = "vehicle.door." ∷ "vehicle.window." ∷ "vehicle.trunk." ∷ "vehicle.lock." ∷ []

abbrev pub convenience_prefixes : List String
convenience_prefixes = "vehicle.navigation." ∷ "vehicle.phone." ∷ []

abbrev pub comfort_prefixes : List String
comfort_prefixes =
    "vehicle.climate." ∷ "vehicle.seat." ∷ "vehicle.lighting." ∷ "vehicle.media." ∷ []

-- The tests of the `vehicle.*` branch, in order.
unfoldable pub by_prefix : Text → VehicleDomain
by_prefix tool =
    if has_prefix forbidden_prefixes tool
    then forbidden
    else if has_prefix sensitive_prefixes tool
    then sensitive
    else if has_prefix convenience_prefixes tool
    then convenience
    else if has_prefix comfort_prefixes tool
    then comfort
    else sensitive

unfoldable pub classify_vehicle_tool : Text → VehicleDomain
unfolding by_prefix
classify_vehicle_tool tool =
    if starts_with tool (codes "vehicle.") then by_prefix tool else classify_vhal_property tool
