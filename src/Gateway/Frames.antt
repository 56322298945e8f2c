-- ===== src/Gateway/Frames.antt =====
-- crates/a2g-gateway/src/state_ingest.rs: encoding and verifying the two signal frames.
use a2g_cli.Base.{
  ℕ, ◌+◌, ◌*◌, ◌/◌, ◌%◌, Bool, true, false, Option, none, some, [], ◌∷◌, ◌==◌, leb, if◌then◌else◌,
}
use a2g_cli.Vehicle.Types.{Gear, park, reverse, neutral, drive}
use a2g_cli.Gateway.Crc.{crc8_j1850}

-- `[u8; 8]`
pub record Frame : Type 0 where
  pub b0 : ℕ
  pub b1 : ℕ
  pub b2 : ℕ
  pub b3 : ℕ
  pub b4 : ℕ
  pub b5 : ℕ
  pub b6 : ℕ
  pub b7 : ℕ

abbrev pub speed_data_id : ℕ
speed_data_id = 0xA0

abbrev pub gear_data_id : ℕ
gear_data_id = 0xA1

abbrev pub counter_modulus : ℕ
counter_modulus = 15

-- The CRC over bytes 0 to 6 and the data id.
unfoldable pub frame_crc : Frame → ℕ → ℕ
unfolding crc8_j1850
frame_crc f data_id = crc8_j1850 (f.b0 ∷ f.b1 ∷ f.b2 ∷ f.b3 ∷ f.b4 ∷ f.b5 ∷ f.b6 ∷ data_id ∷ [])

abbrev pub seal : Frame → ℕ → Frame
seal f data_id = record f { b7 = frame_crc f data_id }

unfoldable pub encode_speed_frame : ℕ → ℕ → Frame
encode_speed_frame speed counter =
    seal
      (record {
        b0 = speed % 256;
        b1 = speed / 256 % 256;
        b2 = speed / 65536 % 256;
        b3 = speed / 16777216 % 256;
        b4 = 0;
        b5 = 0;
        b6 = counter % counter_modulus;
        b7 = 0;
      })
      speed_data_id

abbrev pub gear_to_byte : Gear → ℕ
gear_to_byte park = 0
gear_to_byte reverse = 1
gear_to_byte neutral = 2
gear_to_byte drive = 3

unfoldable pub byte_to_gear : ℕ → Option Gear
byte_to_gear b =
    if b == 0
    then some park
    else if b == 1
    then some reverse
    else if b == 2
    then some neutral
    else if b == 3
    then some drive
    else none

unfoldable pub encode_gear_frame : Gear → ℕ → Frame
encode_gear_frame gear counter =
    seal
      (record {
        b0 = gear_to_byte gear;
        b1 = 0;
        b2 = 0;
        b3 = 0;
        b4 = 0;
        b5 = 0;
        b6 = counter % counter_modulus;
        b7 = 0;
      })
      gear_data_id

pub data FrameError : Type 0 where
  bad_crc repeated_counter malformed : FrameError

pub data Checked {ℓ} (A : Type ℓ) : Type ℓ where
  accepted : A → Checked A
  rejected : FrameError → Checked A

infixl 5 ◌>>=◌ ◌>>◌
abbrev pub ◌>>=◌ {ℓ κ} : {A : Type ℓ} {B : Type κ} → Checked A → (A → Checked B) → Checked B
accepted a >>= f = f a
rejected e >>= f = rejected e

abbrev pub ◌>>◌ {ℓ} : {B : Type ℓ} → Checked (Unit {0}) → Checked B → Checked B
m >> k = m >>= λ _. k

abbrev pub reject_if : Bool → FrameError → Checked (Unit {0})
reject_if true e = rejected e
reject_if false e = accepted tt

-- `frame[6] & 0x0F`
abbrev pub counter_of : Frame → ℕ
counter_of f = f.b6 % 16

abbrev pub is_last : Option ℕ → ℕ → Bool
is_last none c = false
is_last (some l) c = l == c

unfoldable pub verify_trailer : Frame → ℕ → Option ℕ → Checked (Unit {0})
verify_trailer f data_id last_counter =
    if frame_crc f data_id == f.b7
    then (reject_if (leb counter_modulus (counter_of f)) malformed
        >> reject_if (is_last last_counter (counter_of f)) repeated_counter)
    else rejected bad_crc

unfoldable pub verify_speed_frame : Frame → Option ℕ → Checked (ℕ × ℕ)
unfolding verify_trailer
verify_speed_frame f last_counter = do
  verify_trailer f speed_data_id last_counter
  accepted (f.b0 + f.b1 * 256 + f.b2 * 65536 + f.b3 * 16777216, counter_of f)

abbrev gear_or_malformed : Option Gear → Checked Gear
gear_or_malformed none = rejected malformed
gear_or_malformed (some g) = accepted g

unfoldable pub verify_gear_frame : Frame → Option ℕ → Checked (Gear × ℕ)
unfolding verify_trailer byte_to_gear
verify_gear_frame f last_counter = do
  verify_trailer f gear_data_id last_counter
  gear ← gear_or_malformed (byte_to_gear f.b0)
  accepted (gear, counter_of f)
