-- ===== src/Gateway/RoundTrip.antt =====
-- crates/a2g-gateway/src/state_ingest.rs: what is encoded as a frame is what is read off it.
use a2g_cli.Base.{◌≡◌, refl, arith, ℕ, ◌+◌, ◌*◌, ◌/◌, ◌%◌, ◌<◌, false, Option, some}
use a2g_cli.Vehicle.Types.{Gear, park, reverse, neutral, drive}
use a2g_cli.Gateway.Frames.{
  counter_of, Frame, frame_crc, seal, encode_speed_frame, encode_gear_frame, verify_trailer,
  verify_speed_frame, verify_gear_frame, is_last, accepted, gear_to_byte, byte_to_gear,
  speed_data_id, gear_data_id,
}

-- The four bytes of a 32-bit number, least significant first, give it back.
bytes-sum :
    (n : ℕ)
    → n < 4294967296
    → n % 256 + n / 256 % 256 * 256 + n / 65536 % 256 * 65536 + n / 16777216 % 256 * 16777216 ≡ n
bytes-sum n h = omega arith

counter-read : (c : ℕ) → c < 15 → c % 15 % 16 ≡ c
counter-read c h = omega arith

frame_crc-seal :
    (f : Frame) (data_id : ℕ) → frame_crc (seal f data_id) data_id ≡ frame_crc f data_id
unfolding frame_crc
frame_crc-seal f data_id = refl

verify_trailer-seal :
    (f : Frame) (data_id : ℕ) (last : Option ℕ)
    → counter_of f < 15
    → is_last last (counter_of f) ≡ false
    → verify_trailer (seal f data_id) data_id last ≡ accepted tt
unfolding verify_trailer
verify_trailer-seal f data_id last h hl = rw (frame_crc-seal f data_id) (ground arith)

counter-masked : (c : ℕ) → c % 15 % 16 ≡ c % 15
counter-masked c = omega arith

-- A speed of 32 bits comes back from the frame that encodes it, with the remainder of its counter by
-- 15, at a receiver whose last counter is not that remainder.
pub verify_speed_frame-encode_speed_frame :
    (speed counter : ℕ) (last : Option ℕ)
    → speed < 4294967296
    → is_last last (counter % 15) ≡ false
    → verify_speed_frame (encode_speed_frame speed counter) last ≡ accepted (speed, counter % 15)
unfolding verify_speed_frame encode_speed_frame
verify_speed_frame-encode_speed_frame speed counter last hs hl =
    let f : Frame = record {
      b0 = speed % 256;
      b1 = speed / 256 % 256;
      b2 = speed / 65536 % 256;
      b3 = speed / 16777216 % 256;
      b4 = 0;
      b5 = 0;
      b6 = counter % 15;
      b7 = 0;
    } in
    let same = counter-masked counter in
    rw (verify_trailer-seal f speed_data_id last (omega arith) (rw same hl))
      (rw (bytes-sum speed hs, same) refl)

gear-read : (gear : Gear) → byte_to_gear (gear_to_byte gear) ≡ some gear
unfolding byte_to_gear
gear-read park = refl
gear-read reverse = refl
gear-read neutral = refl
gear-read drive = refl

-- A gear comes back from the frame that encodes it, with its counter, at a receiver whose last
-- counter is another one.
pub verify_gear_frame-encode_gear_frame :
    (gear : Gear) (counter : ℕ) (last : Option ℕ)
    → counter < 15
    → is_last last counter ≡ false
    → verify_gear_frame (encode_gear_frame gear counter) last ≡ accepted (gear, counter)
unfolding verify_gear_frame encode_gear_frame
verify_gear_frame-encode_gear_frame gear counter last hc hl =
    let f : Frame = record {
      b0 = gear_to_byte gear;
      b1 = 0;
      b2 = 0;
      b3 = 0;
      b4 = 0;
      b5 = 0;
      b6 = counter % 15;
      b7 = 0;
    } in
    let same = counter-read counter hc in
    rw (verify_trailer-seal f gear_data_id last (omega arith) (rw same hl))
      (rw (gear-read gear, same) refl)
