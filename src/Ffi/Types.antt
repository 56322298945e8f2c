-- ===== src/Ffi/Types.antt =====
-- crates/a2g-ffi/src/lib.rs: decision codes, C strings, trust anchors and vehicle states.
use a2g_cli.Base.{
  ℕ, zero, suc, Option, none, some, List, [], ◌∷◌, ◌==◌, if◌then◌else◌, is_empty, take, drop,
}
use a2g_cli.Base.Int.{ℤ, pos}
use a2g_cli.Base.Text.{Text, remove_all}
use a2g_cli.Mandate.Types.{Bytes}
use a2g_cli.Vehicle.Types.{
  Gear, park, drive, reverse, neutral, Actor, driver, passenger, VerifiedVehicleState,
  from_operator_trusted,
}
use a2g_cli.Enforce.Types.{Decision, allow, deny, expired, pending_approval}
use a2g_cli.Enforce.Trust.{TrustAnchor, self_sovereign, roots}

pub data A2gDecision : Type 0 where
  code_allow code_deny code_expired code_pending_approval code_error : A2gDecision

-- `A2gDecision::from`
abbrev pub code_of : Decision → A2gDecision
code_of allow = code_allow
code_of deny = code_deny
code_of expired = code_expired
code_of pending_approval = code_pending_approval

-- A string without its interior NULs, as a C string is.
unfoldable pub safe_cstring : Text → Text
unfolding remove_all
safe_cstring s = remove_all s (0 ∷ [])

-- `to_str` of `CStr` accepts UTF-8; `ptr` holds the bytes before the NUL.
abbrev pub cstr_to_str : (to_str : Bytes → Option Text) (ptr : Option Bytes) → Option Text
cstr_to_str to_str none = none
cstr_to_str to_str (some bytes) = to_str bytes

pub data TrustAnchorOwned : Type 0 where
  owned_self_sovereign : TrustAnchorOwned
  owned_roots : List Bytes → TrustAnchorOwned

abbrev pub as_trust_anchor : TrustAnchorOwned → TrustAnchor
as_trust_anchor owned_self_sovereign = self_sovereign
as_trust_anchor (owned_roots keys) = roots keys

abbrev pub a2g_trust_anchor_self_sovereign : Option TrustAnchorOwned
a2g_trust_anchor_self_sovereign = some owned_self_sovereign

-- `chunks_exact(32)` of `count * 32` bytes.
unfoldable pub chunks_of_keys : ℕ → Bytes → List Bytes
chunks_of_keys zero bytes = []
chunks_of_keys (suc n) bytes = take 32 bytes ∷ chunks_of_keys n (drop 32 bytes)

-- `pubkeys_flat` is valid for `count * 32` bytes.
unfoldable pub a2g_trust_anchor_roots : Option Bytes → ℕ → Option TrustAnchorOwned
unfolding chunks_of_keys
a2g_trust_anchor_roots none count = none
a2g_trust_anchor_roots (some flat) count =
    if count == 0
    then none
    else let keys = chunks_of_keys count flat in
      if is_empty keys then none else some (owned_roots keys)

abbrev pub gear_of : ℤ → Option Gear
gear_of (pos zero) = some park
gear_of (pos (suc zero)) = some drive
gear_of (pos (suc (suc zero))) = some reverse
gear_of (pos (suc (suc (suc zero)))) = some neutral
gear_of _ = none

abbrev pub actor_of : ℤ → Option Actor
actor_of (pos zero) = some driver
actor_of (pos (suc zero)) = some passenger
actor_of _ = none

-- `speed_mmps` is the answer of `speed_kph_to_mmps`, `none` where it rejects the speed.
unfoldable pub a2g_verified_state_operator_trusted :
    (speed_mmps : Option ℕ) (gear actor : ℤ) → Option VerifiedVehicleState
unfolding from_operator_trusted
a2g_verified_state_operator_trusted none gear actor = none
a2g_verified_state_operator_trusted (some speed) gear actor = elim (gear_of gear) [
  | none ↦ none
  | some g ↦ elim (actor_of actor) [
    | none ↦ none
    | some a ↦ some (from_operator_trusted (record { speed_mmps = speed; gear = g; actor = a }))
  ]
]
