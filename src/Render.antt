-- ===== src/Render.antt =====
-- companion/src/model.rs: `RenderSample`, the datagram in which a render source sends its state. A
-- byte is a number below 256, and an `f32` the number of its bits.
pub mod Codec
use beatblock_online.Base.{
  ℕ, ◌==◌, Bool, true, not, ◌||◌, Option, none, some, List, [], ◌∷◌, if◌then◌else◌, length,
  get_elem?, to_le_bytes, from_le_bytes, slice, write_at, replicate,
}

abbrev pub protocol_version : ℕ
protocol_version = 3

abbrev pub wire_size : ℕ
wire_size = 32

pub record RenderSample : Type 0 where
  pub session_id : ℕ
  pub sequence : ℕ
  pub run_time_us : ℕ
  pub beat : ℕ
  pub paddle_angle : ℕ
  pub tap_mask : ℕ
  pub flags : ℕ

-- `RenderSample::encode`
unfoldable pub encode : RenderSample → List ℕ
encode s =
    let out = replicate wire_size 0 in
    let out = write_at 0 (protocol_version ∷ []) out in
    let out = write_at 4 (to_le_bytes 4 s.session_id) out in
    let out = write_at 8 (to_le_bytes 4 s.sequence) out in
    let out = write_at 12 (to_le_bytes 8 s.run_time_us) out in
    let out = write_at 20 (to_le_bytes 4 s.beat) out in
    let out = write_at 24 (to_le_bytes 4 s.paddle_angle) out in
    let out = write_at 28 (to_le_bytes 2 s.tap_mask) out in write_at 30 (to_le_bytes 2 s.flags) out

-- `bytes[0] != PROTOCOL_VERSION`
abbrev pub wrong_version : List ℕ → Bool
wrong_version [] = true
wrong_version (b ∷ bs) = not (b == protocol_version)

abbrev pub read_sample : List ℕ → RenderSample
read_sample bytes = record {
  session_id = from_le_bytes (slice 4 4 bytes);
  sequence = from_le_bytes (slice 8 4 bytes);
  run_time_us = from_le_bytes (slice 12 8 bytes);
  beat = from_le_bytes (slice 20 4 bytes);
  paddle_angle = from_le_bytes (slice 24 4 bytes);
  tap_mask = from_le_bytes (slice 28 2 bytes);
  flags = from_le_bytes (slice 30 2 bytes);
}

-- `RenderSample::decode`
unfoldable pub decode : List ℕ → Option RenderSample
decode bytes =
    if not (length bytes == wire_size) || wrong_version bytes
    then none
    else some (read_sample bytes)
