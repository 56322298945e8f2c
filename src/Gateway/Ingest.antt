-- ===== src/Gateway/Ingest.antt =====
-- crates/a2g-gateway/src/state_ingest.rs: the state that the gateway reads off the vehicle bus.
-- Instants count nanoseconds; the lock makes each operation one step.
use Prim.Native.Nat.{min}
use a2g_cli.Base.{
  ℕ, ◌+◌, ◌-◌, ◌*◌, ◌^◌, Bool, true, false, ◌&&◌, Option, none, some, leb, ◌==◌, if◌then◌else◌,
}
use a2g_cli.Vehicle.Types.{Gear, park, driver, VehicleState, fail_safe}
use a2g_cli.Vehicle.Attest.{millisecond}
use a2g_cli.Gateway.Frames.{
  Frame, FrameError, bad_crc, repeated_counter, malformed, accepted, rejected, verify_speed_frame,
  verify_gear_frame,
}

pub record IngestStats : Type 0 where
  pub accepted_frames : ℕ
  pub rejected_crc : ℕ
  pub rejected_counter : ℕ
  pub rejected_malformed : ℕ

pub record StateIngest : Type 0 where
  pub speed_mmps : ℕ
  pub gear : Gear
  pub last_speed_at : Option ℕ
  pub last_gear_at : Option ℕ
  pub speed_counter : Option ℕ
  pub gear_counter : Option ℕ
  pub stats : IngestStats
  pub freshness_ms : ℕ
  pub reader_active : Bool

unfoldable pub with_freshness_ms : ℕ → StateIngest
with_freshness_ms ms = record {
  speed_mmps = 0;
  gear = park;
  last_speed_at = none;
  last_gear_at = none;
  speed_counter = none;
  gear_counter = none;
  stats = record {
    accepted_frames = 0;
    rejected_crc = 0;
    rejected_counter = 0;
    rejected_malformed = 0;
  };
  freshness_ms = ms;
  reader_active = false;
}

unfoldable pub mark_reader_active : StateIngest → StateIngest
mark_reader_active s = record s { reader_active = true }

-- `saturating_add(1)` on a `u64`.
abbrev pub bump : ℕ → ℕ
bump n = min (n + 1) (2 ^ 64 - 1)

unfoldable pub record_rejection : IngestStats → FrameError → IngestStats
record_rejection t bad_crc = record t { rejected_crc = bump t.rejected_crc }
record_rejection t repeated_counter = record t { rejected_counter = bump t.rejected_counter }
record_rejection t malformed = record t { rejected_malformed = bump t.rejected_malformed }

abbrev count_accepted : IngestStats → IngestStats
count_accepted t = record t { accepted_frames = bump t.accepted_frames }

unfoldable pub ingest_speed_frame : Frame → ℕ → StateIngest → StateIngest
ingest_speed_frame f now s = elim (verify_speed_frame f s.speed_counter) [
  | accepted (speed, counter) ↦ record s {
    speed_mmps = speed;
    speed_counter = some counter;
    last_speed_at = some now;
    stats = count_accepted s.stats;
  }
  | rejected e ↦ record s { stats = record_rejection s.stats e }
]

unfoldable pub ingest_gear_frame : Frame → ℕ → StateIngest → StateIngest
ingest_gear_frame f now s = elim (verify_gear_frame f s.gear_counter) [
  | accepted (gear, counter) ↦ record s {
    gear = gear;
    gear_counter = some counter;
    last_gear_at = some now;
    stats = count_accepted s.stats;
  }
  | rejected e ↦ record s { stats = record_rejection s.stats e }
]

-- One frame of the reader's loop, by its arbitration id.
unfoldable pub ingest_frame : ℕ → ℕ → ℕ → Frame → ℕ → StateIngest → StateIngest
ingest_frame speed_can_id gear_can_id can_id f now s =
    if can_id == speed_can_id
    then ingest_speed_frame f now s
    else if can_id == gear_can_id
    then ingest_gear_frame f now s
    else s

-- `last.is_some_and(|t| now.duration_since(t) <= deadline)`; `duration_since` stops at 0.
abbrev pub is_recent : ℕ → ℕ → Option ℕ → Bool
is_recent freshness_ms now none = false
is_recent freshness_ms now (some t) = leb (now - t) (freshness_ms * millisecond)

unfoldable pub current_state : StateIngest → ℕ → VehicleState × Bool
current_state s now =
    if is_recent s.freshness_ms now s.last_speed_at && is_recent s.freshness_ms now s.last_gear_at
    then (record { speed_mmps = s.speed_mmps; gear = s.gear; actor = driver }, true)
    else (fail_safe, false)
