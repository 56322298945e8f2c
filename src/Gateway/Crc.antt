-- ===== src/Gateway/Crc.antt =====
-- crates/a2g-gateway/src/state_ingest.rs: CRC-8/SAE-J1850.
use Prim.Native.Nat.{bit_and, bit_xor}
use a2g_cli.Base.{ℕ, zero, suc, ◌*◌, ◌%◌, List, [], ◌∷◌, ◌==◌, if◌then◌else◌}

-- One round of the inner loop, on a `u8`.
unfoldable pub crc_shift : ℕ → ℕ
crc_shift crc = if bit_and crc 0x80 == 0 then crc * 2 % 256 else bit_xor (crc * 2 % 256) 0x1D

unfoldable pub crc_shifts : ℕ → ℕ → ℕ
unfolding crc_shift
crc_shifts zero crc = crc
crc_shifts (suc n) crc = crc_shifts n (crc_shift crc)

unfoldable pub crc_byte : ℕ → ℕ → ℕ
unfolding crc_shifts
crc_byte crc byte = crc_shifts 8 (bit_xor crc byte)

unfoldable pub crc_bytes : ℕ → List ℕ → ℕ
unfolding crc_byte
crc_bytes crc [] = crc
crc_bytes crc (b ∷ bs) = crc_bytes (crc_byte crc b) bs

unfoldable pub crc8_j1850 : List ℕ → ℕ
unfolding crc_bytes
crc8_j1850 bytes = bit_xor (crc_bytes 0xFF bytes) 0xFF
