-- ===== src/Vehicle/Laws.antt =====
-- crates/a2g-core/src/vehicle.rs, `classify_vehicle_tool`: forbidden names, and names that no prefix
-- fits.
use a2g_cli.Base.{◌≡◌, refl, true, false, ◌++◌, All, arith}
use a2g_cli.Base.Text.{Text, codes, starts_with}
use a2g_cli.Vehicle.Types.{forbidden, sensitive}
use a2g_cli.Vehicle.Classify.{
  classify_vehicle_tool, has_prefix, forbidden_prefixes, by_prefix, convenience_prefixes,
  comfort_prefixes,
}

-- A tool whose name continues one of the seven forbidden prefixes is forbidden, whatever follows.
pub classify_vehicle_tool-forbidden :
    (rest : Text)
    → All (λ p. classify_vehicle_tool (codes p ++ rest) ≡ forbidden) forbidden_prefixes
unfolding classify_vehicle_tool by_prefix starts_with
classify_vehicle_tool-forbidden rest = (refl, (refl, (refl, (refl, (refl, (refl, (refl, tt)))))))

-- A tool named `vehicle.` and something that no forbidden, convenience or comfort prefix fits is
-- sensitive: a prefix that the code does not know falls to the domain that needs a parked vehicle.
pub by_prefix-sensitive :
    (tool : Text)
    → starts_with tool (codes "vehicle.") ≡ true
    → has_prefix forbidden_prefixes tool ≡ false
    → has_prefix convenience_prefixes tool ≡ false
    → has_prefix comfort_prefixes tool ≡ false
    → classify_vehicle_tool tool ≡ sensitive
unfolding classify_vehicle_tool by_prefix
by_prefix-sensitive tool h a b c = ground arith
