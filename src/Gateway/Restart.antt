-- ===== src/Gateway/Restart.antt =====
-- crates/a2g-gateway/src/pending.rs and state_ingest.rs: the gate on timestamps after a restart, and
-- the freshness of the ingested state.
use a2g_cli.Vehicle.Types.{fail_safe, driver}
use a2g_cli.Gateway.Check.{below_gate}
use a2g_cli.Platform.{Time}
use a2g_cli.Gateway.Pending.{live_entries, QueueSnapshot, hwm_gate_ms, with_persist}
use a2g_cli.Gateway.Ingest.{is_recent, StateIngest, current_state}
use a2g_cli.Base.{
  inl, inr, Bool-cases, ◌⊎◌, if◌then◌else◌, ◌≡◌, refl, ℕ, Bool, true, false, not, ◌||◌, ◌&&◌, none,
  some, is_empty,
}
use a2g_cli.Base.Int.{ℤ, pos, ltb_ℤ}

gate-is-below :
    (a b : Bool) (hwm ms : ℤ)
    → b ≡ true
    → below_gate (if (a || b) && b then some hwm else none) ms ≡ ltb_ℤ ms hwm
gate-is-below true true hwm ms h = refl
gate-is-below false true hwm ms h = refl
gate-is-below a false hwm ms h = cc

-- After a restart from a snapshot with a positive high-water mark the gate refuses exactly the
-- timestamps that are strictly below the mark: one that equals it passes.
pub below_gate-with_persist :
    (now : Time) (snap : QueueSnapshot) (writable : Bool) (ms : ℤ)
    → ltb_ℤ (pos 0) snap.nonce_hwm_ms ≡ true
    → below_gate (hwm_gate_ms (with_persist now (some snap) writable)) ms
      ≡ ltb_ℤ ms snap.nonce_hwm_ms
unfolding with_persist hwm_gate_ms
below_gate-with_persist now snap writable ms h =
    gate-is-below (not (is_empty (live_entries now snap.entries))) (ltb_ℤ (pos 0) snap.nonce_hwm_ms)
      snap.nonce_hwm_ms ms h

-- The state that the ingest reports is the ingested one, with the driver as actor and marked fresh,
-- while both signals are within the freshness window, and otherwise the fail-safe state, not fresh.
pub current_state-fail_safe :
    (s : StateIngest) (now : ℕ)
    → ((is_recent s.freshness_ms now s.last_speed_at ≡ true)
        × (is_recent s.freshness_ms now s.last_gear_at ≡ true)
        × (current_state s now
            ≡ (record { speed_mmps = s.speed_mmps; gear = s.gear; actor = driver }, true)))
      ⊎ (((is_recent s.freshness_ms now s.last_speed_at
              && is_recent s.freshness_ms now s.last_gear_at)
            ≡ false)
          × (current_state s now ≡ (fail_safe, false)))
unfolding current_state
current_state-fail_safe s now = elim (Bool-cases (is_recent s.freshness_ms now s.last_speed_at)) [
  | inl a ↦ elim (Bool-cases (is_recent s.freshness_ms now s.last_gear_at)) [
    | inl b ↦ inl (a, b, rw (a, b) refl)
    | inr b ↦ inr (rw (a, b) (refl, refl))
  ]
  | inr a ↦ inr (rw a (refl, refl))
]
