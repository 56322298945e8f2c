-- ===== src/Examples/Texts.antt =====
-- The theorems on paths and signatures, and the reading of windows, at concrete values.
use a2g_cli.Base.{
  [], ◌∷◌, zero, suc, ap, ℕ, length-append, take, ◌||◌, length, ◌≡◌, refl, ◌≤◌, true, false, ◌++◌,
  replicate, arith,
}
use a2g_cli.Base.Text.{
  digits_from, is_whitespace, text_eq_refl, skip_whitespace, Text, codes, text_eq, starts_with,
  split, split_once, join, trim, parse_u32,
}
use a2g_cli.Error.{ok}
use a2g_cli.Enforce.Paths.{push_part, push_parts, canonicalize_path_logical, components}
use a2g_cli.Enforce.Canonical.{canonicalize_path_logical-idempotent}
use a2g_cli.Enforce.Climb.{components-IsNormal, IsNormal}
use a2g_cli.Enforce.Hours.{OperatingHours, validate_operating_hours, parse_hm}
use a2g_cli.Hitl.Types.{ApprovalGrant, SignedBinding}
use a2g_cli.Hitl.Grant.{new_signed, verify_against_binding, grant_payload_bytes}
use a2g_cli.Hitl.Binding.{sign_binding, verify_binding, binding_payload_bytes}
use a2g_cli.Hitl.RoundTrip.{Signs, verify_against_binding-new_signed}
use a2g_cli.Examples.{platform, key, binding}

canonicalize_path_logical-idempotent_example :
    canonicalize_path_logical (canonicalize_path_logical (codes "/a/../../b//./c"))
    ≡ canonicalize_path_logical (codes "/a/../../b//./c")
canonicalize_path_logical-idempotent_example =
    canonicalize_path_logical-idempotent (codes "/a/../../b//./c")

canonical_path : canonicalize_path_logical (codes "/a/../../b//./c") ≡ codes "/b/c"
unfolding canonicalize_path_logical components push_parts push_part split join starts_with text_eq
canonical_path = refl

components-IsNormal_example : IsNormal false (components (codes "a/../../b"))
unfolding starts_with
components-IsNormal_example = components-IsNormal (codes "a/../../b")

abbrev window : OperatingHours
window = record { start_hour = 9; start_min = 0; end_hour = 17; end_min = 30 }

window_read : validate_operating_hours (codes "09:00-17:30") ≡ ok window
unfolding validate_operating_hours parse_hm split_once starts_with trim skip_whitespace
    is_whitespace parse_u32 digits_from
window_read = refl

is_comms :
    (starts_with (codes "comms.video") (codes "comms.")
      || starts_with (codes "comms.video") (codes "pay.")
      || starts_with (codes "comms.video") (codes "pii."))
    ≡ true
unfolding starts_with
is_comms = refl

length-take : (n : ℕ) (t : Text) → n ≤ length t → length (take n t) ≡ n
length-take zero t h = refl
length-take (suc n) [] h = omega arith
length-take (suc n) (x ∷ xs) h = ap suc (length-take n xs (omega arith))

pub length-toy : (m : Text) → length (take 64 (m ++ replicate 64 0)) ≡ 64
length-toy m =
    let e = length-append m (replicate 64 0) in length-take 64 (m ++ replicate 64 0) (omega arith)

pub platform-Signs : Signs platform key
platform-Signs = record {
  decodes = λ b. refl;
  key_length = refl;
  key_valid = refl;
  sign_length = length-toy;
  verifies = λ m. text_eq_refl (platform.sign key m);
}

abbrev signed : SignedBinding
signed = record { binding = binding; a2g_mac = codes "hash" ++ replicate 60 0 }

binding_signed : sign_binding platform binding key ≡ ok signed
unfolding sign_binding binding_payload_bytes
binding_signed = refl

binding_verified : verify_binding platform signed key ≡ ok binding
unfolding verify_binding binding_payload_bytes text_eq
binding_verified = refl

abbrev grant : ApprovalGrant
grant = record {
  binding_id = codes "b1";
  request_hash = codes "hash";
  approver_did = codes "did";
  approver_pubkey = key;
  signature = codes "hash" ++ replicate 60 0;
  expires_at = replicate 12 b'x';
  parent_receipt_hash = codes "r";
}

grant_signed :
    new_signed platform (codes "b1") (codes "hash") (codes "did") key 5 7 (codes "r") ≡ ok grant
unfolding new_signed grant_payload_bytes
grant_signed = refl

verify_against_binding-new_signed_example : verify_against_binding platform grant binding 11 ≡ ok tt
verify_against_binding-new_signed_example =
    verify_against_binding-new_signed platform key binding (codes "did") (codes "r") 5 7 11 12 grant
      platform-Signs grant_signed refl (omega arith)
