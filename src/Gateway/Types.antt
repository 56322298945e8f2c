-- ===== src/Gateway/Types.antt =====
-- crates/a2g-gateway/src/server.rs and protocol.rs: receipts, requests and responses, the
-- gateway's keys and state, and what a request handler may do.
use a2g_cli.Base.{ℕ, Bool, true, false, Option, none, some, List, ◌++◌}
use a2g_cli.Base.Int.{ℤ}
use a2g_cli.Base.Text.{Text, codes}
use a2g_cli.Error.{Message, hex_decode_error, cbor_encode, Result, ok_or, ◌>>=◌ as bind}
use a2g_cli.Platform.{Platform, Time}
use a2g_cli.Mandate.Types.{Bytes}
use a2g_cli.Mandate.Verify.{digest_hex}
use a2g_cli.Hitl.Types.{PendingApprovalBinding, ApprovalGrant, SignedBinding}
use a2g_cli.Vehicle.Types.{VehicleState}
use a2g_cli.Vehicle.Attest.{AttestedVehicleState}
use a2g_cli.Gateway.Ingest.{StateIngest}
use a2g_cli.Gateway.Pending.{PendingQueue}

-- protocol.rs: `ReceiptPayload`, the signed content of a receipt.
pub record ReceiptPayload : Type 0 where
  pub tag : Text
  pub verdict_id : Text
  pub decision : Text
  pub tool : Text
  pub request_hash : Bytes
  pub binding_id : Text
  pub issued_at_ms : ℤ
  pub nonce : Bytes

pub record GatewayReceipt : Type 0 where
  pub verdict_id : Text
  pub decision : Text
  pub tool : Text
  pub params_json : Text
  pub policy_rule : Text
  pub state_trust : Text
  pub binding_id : Text
  pub request_hash : Text
  pub issued_at_ms : ℤ
  pub nonce_hex : Text
  pub signature_hex : Text
  pub attested_state_json : Option Text

pub data GatewayRequest : Type 0 where
  sign_binding_request : Text → GatewayRequest
  submit_grant : Text → GatewayRequest
  enforce_request : GatewayReceipt → GatewayRequest
  get_public_keys : GatewayRequest

pub data GatewayResponse : Type 0 where
  signed_binding : Text → GatewayResponse
  grant_accepted : Text → GatewayResponse
  enforced : Text → Text → Bool → GatewayResponse
  refused : Message → GatewayResponse
  public_keys : Text → Text → Text → Text → GatewayResponse
  error : Message → GatewayResponse

-- serde_json's and minicbor's work on the gateway's own types, and `to_string` of an `i64`.
pub record Codec : Type 0 where
  pub parse_binding : Text → Option PendingApprovalBinding
  pub parse_grant : Text → Option ApprovalGrant
  pub parse_attested : Text → Option AttestedVehicleState
  pub print_signed : SignedBinding → Option Text
  pub encode_receipt : ReceiptPayload → Option Bytes
  pub state_json : VehicleState → Text
  pub print_i64 : ℤ → Text

-- The keys that the handlers use, as raw bytes, and the hex texts of `DemoKeys`.
pub record GatewayKeys : Type 0 where
  pub receipt_verifying_key : Bytes
  pub attester_verifying_key : Bytes
  pub operator_verifying_key : Bytes
  pub binding_signing_key : Bytes
  pub receipt_verifying_key_hex : Text
  pub attester_verifying_key_hex : Text
  pub operator_verifying_key_hex : Text

-- The clock readings of one request, and whether a write to a real bus succeeds.
pub record Moment : Type 0 where
  pub now : Time
  pub now_ms : ℤ
  pub instant : ℕ
  pub bus_writable : Bool

-- `bus` lists the frames written, the last one first.
pub record GatewayState : Type 0 where
  pub keys : GatewayKeys
  pub pending : PendingQueue
  pub state_ingest : StateIngest
  pub bus : List Bytes

module _ (p : Platform) (c : Codec) where
  -- `GatewayReceipt::canonical_bytes`
  unfoldable pub canonical_bytes : GatewayReceipt → Result Bytes
  canonical_bytes r = bind (ok_or (p.hex_decode r.request_hash) hex_decode_error) (λ hash.
      bind (ok_or (p.hex_decode r.nonce_hex) hex_decode_error) (λ nonce.
        ok_or
          (c.encode_receipt (record {
            tag = codes "RECEIPT";
            verdict_id = r.verdict_id;
            decision = r.decision;
            tool = r.tool;
            request_hash = hash;
            binding_id = r.binding_id;
            issued_at_ms = r.issued_at_ms;
            nonce = nonce;
          }))
          cbor_encode))

  -- `GatewayReceipt::compute_request_hash` on the receipt's own fields.
  unfoldable pub expected_request_hash : GatewayReceipt → Text
  expected_request_hash r =
      digest_hex p (p.utf8 (r.tool ++ (r.params_json ++ c.print_i64 r.issued_at_ms)))

-- A handler's step on the state: it goes on, refuses, or panics; the state comes back in each case.
pub data Reply (A : Type 0) : Type 0 where
  pass : A → Reply A
  refuse : Message → Reply A
  panic : Reply A

abbrev pub Action : Type 0 → Type 0
Action A = GatewayState → Reply A × GatewayState

-- What follows a step, by its reply.
abbrev pub next : {A B : Type 0} → Reply A → GatewayState → (A → Action B) → Reply B × GatewayState
next (pass a) s f = f a s
next (refuse e) s f = (refuse e, s)
next panic s f = (panic, s)

infixl 5 ◌>>=◌ ◌>>◌
unfoldable pub ◌>>=◌ : {A B : Type 0} → Action A → (A → Action B) → Action B
◌>>=◌ m f s = next (m s).0 (m s).1 f

abbrev pub ◌>>◌ : {A B : Type 0} → Action A → Action B → Action B
m >> k = m >>= λ _. k

abbrev pub pure : {A : Type 0} → A → Action A
pure a s = (pass a, s)

abbrev pub refuse_if : Bool → Message → Action Unit
refuse_if true e s = (refuse e, s)
refuse_if false e s = (pass tt, s)

abbrev pub pass_or : {A : Type 0} → Option A → Message → Action A
pass_or none e s = (refuse e, s)
pass_or (some a) e s = (pass a, s)

abbrev pub pass_or_panic : {A : Type 0} → Option A → Action A
pass_or_panic none s = (panic, s)
pass_or_panic (some a) s = (pass a, s)
