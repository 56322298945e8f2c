-- ===== src/Identity.antt =====
-- crates/a2g-core/src/identity.rs: DIDs and the public keys that they spell.
use a2g_cli.Base.{
  ℕ, ◌≡◌, refl, Bool, ◌||◌, not, Option, some, any, leb, ltb, is_empty, length, drop, ◌&&◌,
}
use a2g_cli.Base.Text.{Text, codes, starts_with}
use a2g_cli.Error.{
  hex_decode_error, mandate_invalid, internal, say, Result, ok, ◌>>=◌, ◌>>◌, ensure, ok_or,
}
use a2g_cli.Platform.{Platform}
use a2g_cli.Mandate.Types.{Bytes}
use a2g_cli.Mandate.Verify.{did_of_key}

-- `char::is_control`: Unicode's Cc.
abbrev pub is_control : ℕ → Bool
is_control c = ltb c 0x20 || (leb 0x7F c && leb c 0x9F)

-- `bs58_decode` is `bs58::decode(t).into_vec()`.
module _ (p : Platform) (bs58_decode : Text → Option Bytes) where
  -- The DID, the secret key and the public key in hexadecimal, for the key that is drawn.
  unfoldable pub generate_agent_keypair : (signing_key : Bytes) → Text × Text × Text
  generate_agent_keypair key =
      (did_of_key p (p.public_key key), p.hex_encode key, p.hex_encode (p.public_key key))

  unfoldable pub did_from_pubkey_hex : Text → Result Text
  did_from_pubkey_hex pubkey_hex = do
    bytes ← ok_or (p.hex_decode pubkey_hex) hex_decode_error
    ok (did_of_key p bytes)

  unfoldable pub pubkey_from_did : Text → Result Bytes
  unfolding starts_with
  pubkey_from_did did = do
    ensure (starts_with did (codes "did:a2g:"))
        (mandate_invalid (say "invalid DID format: must start with did:a2g:"))
    ok_or (bs58_decode (drop 8 did)) (internal (say "bs58"))

  unfoldable pub validate_did : Text → Result (Unit {0})
  validate_did did = do
    ensure (not (is_empty did)) (mandate_invalid (say "DID must not be empty"))
    ensure (leb (length (p.utf8 did)) 256)
        (mandate_invalid (say "DID exceeds maximum length of 256 characters"))
    ensure (not (any is_control did)) (mandate_invalid (say "DID contains control characters"))

  -- The key comes back from the DID of a key pair, and the DID from its public key in hexadecimal.
  -- Base 58 and hexadecimal texts are assumed to decode to the bytes that they encode.
  pub pubkey_from_did-generate :
      (key : Bytes)
      → ((b : Bytes) → bs58_decode (p.bs58_encode b) ≡ some b)
      → ((b : Bytes) → p.hex_decode (p.hex_encode b) ≡ some b)
      → (pubkey_from_did (generate_agent_keypair key).0 ≡ ok (p.public_key key))
        × (did_from_pubkey_hex (generate_agent_keypair key).2 ≡ ok (generate_agent_keypair key).0)
  unfolding generate_agent_keypair pubkey_from_did did_from_pubkey_hex starts_with
  pubkey_from_did-generate key h k =
      (rw (h (p.public_key key)) refl, rw (k (p.public_key key)) refl)
