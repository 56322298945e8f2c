-- ===== src/Gateway/Bus.antt =====
-- crates/a2g-gateway/src/bus.rs: the enforcement frame and the only write to the bus.
use a2g_cli.Base.{ℕ, Bool, [], ◌∷◌, ◌==◌, if◌then◌else◌, get_elem?, unwrap_or}
use a2g_cli.Base.Text.{Text}
use a2g_cli.Platform.{Platform}
use a2g_cli.Mandate.Types.{Bytes}
use a2g_cli.Gateway.Types.{Moment, pass, Action}

unfoldable pub without_dashes : Text → Text
without_dashes [] = []
without_dashes (x ∷ xs) = let rest = without_dashes xs in if x == b'-' then rest else x ∷ rest

abbrev byte_or_zero : Bytes → ℕ → ℕ
byte_or_zero bs i = unwrap_or (get_elem? bs i) 0

-- Bytes 4 to 7 of the verdict's id, then the first four of the tool's digest.
unfoldable pub build_frame : Platform → Text → Text → Bytes
unfolding without_dashes
build_frame p verdict_id tool =
    let id = unwrap_or (p.hex_decode (without_dashes verdict_id)) [] in
    let hash = p.sha256 (p.utf8 tool) in
    byte_or_zero id 4
    ∷ byte_or_zero id 5
    ∷ byte_or_zero id 6
    ∷ byte_or_zero id 7
    ∷ byte_or_zero hash 0
    ∷ byte_or_zero hash 1
    ∷ byte_or_zero hash 2
    ∷ byte_or_zero hash 3
    ∷ []

-- The frame is written to the real bus or, where that fails, to the simulated one.
unfoldable pub write_enforcement_frame : Platform → Moment → Text → Text → Action (Text × Bool)
write_enforcement_frame p t verdict_id tool s =
    let frame = build_frame p verdict_id tool in
    (pass (p.hex_encode frame, t.bus_writable), record s { bus = frame ∷ s.bus })
