-- ===== src/Frame/Envelope.antt =====
-- Whole frames of frame/serial/mod.rs: a type byte, a payload and a checksum. `FrameWriter`,
-- `PayloadReader`, the checks on received bytes, and the frames with one fixed body.
pub mod Writing
pub mod Reading
pub mod Simple
pub mod Carries
use redpine_rs.Common.{
  ℕ, ◌+◌, ◌-◌, ◌*◌, ◌/◌, ◌^◌, min, bit_and, Bool, true, false, Option, none, some, List, [], ◌∷◌,
  ◌++◌, length, take, drop, replicate, Run, done, panic, assert, ◌>>=◌, ◌>>◌, leb, ◌==◌,
  if◌then◌else◌,
}
use redpine_rs.Common.Word.{u8, ◌>>>◌}
use redpine_rs.Frame.{
  FrameType, handshake_alpha, handshake_alpha_ack, handshake_beta, handshake_beta_ack, close,
  close_ack, stream_segment, stream_ack, stream_segment_ack, stream_sync, HandshakeAlphaFrame,
}
use redpine_rs.Frame.Io.{writer, write_u8}
use redpine_rs.Frame.Crc.{compute, crc_size}
use redpine_rs.Frame.Block.{
  BlockSerial, Serial, block_serial, handshake_alpha_block, handshake_alpha_size,
  handshake_beta_size,
}

abbrev pub frame_header_size : ℕ
frame_header_size = 1

abbrev pub frame_crc_size : ℕ
frame_crc_size = 4

abbrev pub frame_overhead_size : ℕ
frame_overhead_size = frame_header_size + frame_crc_size

abbrev pub handshake_alpha_frame_size_max : ℕ
handshake_alpha_frame_size_max = 1472

-- `&bytes[begin..end]`
abbrev pub slice : List ℕ → ℕ → ℕ → Run (List ℕ)
slice bytes begin end =
    if leb begin end
    then (if leb end (length bytes) then done (take (end - begin) (drop begin bytes)) else panic)
    else panic

-- `a - b` on `usize`, which panics rather than wrap.
abbrev pub checked_sub : ℕ → ℕ → Run ℕ
checked_sub a b = if leb b a then done (a - b) else panic

-- `FRAME_TYPE_HANDSHAKE_ALPHA` to `FRAME_TYPE_STREAM_SYNC`
unfoldable pub type_bits : FrameType → ℕ
type_bits handshake_alpha = 0x00
type_bits handshake_alpha_ack = 0x01
type_bits handshake_beta = 0x02
type_bits handshake_beta_ack = 0x03
type_bits close = 0x04
type_bits close_ack = 0x05
type_bits stream_segment = 0x06
type_bits stream_ack = 0x07
type_bits stream_segment_ack = 0x08
type_bits stream_sync = 0x09

pub record FrameWriter : Type 0 where
  pub buffer : List ℕ
  pub write_idx : ℕ

-- `FrameWriter::new`
unfoldable pub frame_writer : List ℕ → FrameType → Run FrameWriter
unfolding writer
frame_writer buffer frame_type = do
  assert (leb frame_overhead_size (length buffer))
  wr ← write_u8 (type_bits frame_type) (writer buffer)
  assert (wr.bytes_written == frame_header_size)
  done (record { buffer = wr.behind ++ wr.ahead; write_idx = frame_header_size })

-- `FrameWriter::write`: the serialiser has the slice up to the place of the checksum.
unfoldable pub frame_write : {A : Type 0} → Serial A → A → FrameWriter → Run (Bool × FrameWriter)
frame_write S obj fw = do
  end_idx ← checked_sub (length fw.buffer) frame_crc_size
  room ← slice fw.buffer fw.write_idx end_idx
  written ← S.write room obj
  done (elim written [
    | none ↦ (false, fw)
    | some (room', size) ↦ (
      true,
      record {
        buffer = take fw.write_idx fw.buffer ++ (room' ++ drop end_idx fw.buffer);
        write_idx = fw.write_idx + size;
      },
    )
  ])

-- `frame_crc.to_le_bytes()`, and `u32::from_le_bytes`
abbrev pub to_le_bytes : ℕ → List ℕ
to_le_bytes crc = u8 crc ∷ u8 (crc >>> 8) ∷ u8 (crc >>> 16) ∷ u8 (crc >>> 24) ∷ []

abbrev pub from_le_bytes : List ℕ → Run ℕ
from_le_bytes (b0 ∷ b1 ∷ b2 ∷ b3 ∷ []) = done (b0 + b1 * 2 ^ 8 + b2 * 2 ^ 16 + b3 * 2 ^ 24)
from_le_bytes _ = panic

-- `FrameWriter::finalize`: the frame, and the whole buffer as it is left.
unfoldable pub finalize : FrameWriter → Run (List ℕ × List ℕ)
finalize fw = do
  payload ← slice fw.buffer 0 fw.write_idx
  let frame_size = fw.write_idx + crc_size
  crc_room ← slice fw.buffer fw.write_idx frame_size
  let buffer =
      take fw.write_idx fw.buffer ++ (to_le_bytes (compute payload) ++ drop frame_size fw.buffer)
  frame ← slice buffer 0 frame_size
  done (frame, buffer)

pub record PayloadReader : Type 0 where
  pub buffer : List ℕ
  pub read_idx : ℕ

-- `PayloadReader::new`
unfoldable pub payload_reader : List ℕ → PayloadReader
payload_reader buffer = record { buffer = buffer; read_idx = 0 }

-- `PayloadReader::read`
unfoldable pub payload_read :
    {A : Type 0} → Serial A → PayloadReader → Run (Option A × PayloadReader)
payload_read S pr = do
  rest ← slice pr.buffer pr.read_idx (length pr.buffer)
  result ← S.read rest
  done (elim result [
    | none ↦ (none, pr)
    | some (obj, size) ↦ (some obj, record pr { read_idx = pr.read_idx + size })
  ])

unfoldable pub remaining_bytes : PayloadReader → Run (List ℕ)
remaining_bytes pr = slice pr.buffer pr.read_idx (length pr.buffer)

unfoldable pub verify_minimum_size : List ℕ → Bool
verify_minimum_size frame_bytes = leb frame_overhead_size (length frame_bytes)

unfoldable pub verify_crc : List ℕ → Run Bool
verify_crc buffer = do
  assert (leb crc_size (length buffer))
  end ← checked_sub (length buffer) crc_size
  bytes ← slice buffer 0 end
  crc_bytes ← slice buffer end (length buffer)
  crc ← from_le_bytes crc_bytes
  done (compute bytes == crc)

unfoldable pub verify_handshake_alpha_size_and_crc : List ℕ → ℕ → Run Bool
unfolding verify_crc
verify_handshake_alpha_size_and_crc frame_bytes frame_size_max =
    if length frame_bytes == min frame_size_max handshake_alpha_frame_size_max
    then (slice frame_bytes 0 (handshake_alpha_size + frame_overhead_size) >>= verify_crc)
    else done false

unfoldable pub verify_handshake_beta_size_and_crc : List ℕ → Run Bool
unfolding verify_crc
verify_handshake_beta_size_and_crc frame_bytes =
    if length frame_bytes == handshake_beta_size + frame_overhead_size
    then verify_crc frame_bytes
    else done false

-- the `match` on the low four bits of the first byte
unfoldable pub type_of_bits : ℕ → Option FrameType
type_of_bits bits =
    if bits == 0x00
    then some handshake_alpha
    else if bits == 0x01
    then some handshake_alpha_ack
    else if bits == 0x02
    then some handshake_beta
    else if bits == 0x03
    then some handshake_beta_ack
    else if bits == 0x04
    then some close
    else if bits == 0x05
    then some close_ack
    else if bits == 0x06
    then some stream_segment
    else if bits == 0x07
    then some stream_ack
    else if bits == 0x08
    then some stream_segment_ack
    else if bits == 0x09
    then some stream_sync
    else none

unfoldable pub read_type : List ℕ → Run (Option FrameType)
unfolding type_of_bits verify_minimum_size
read_type frame_bytes = do
  assert (verify_minimum_size frame_bytes)
  elim frame_bytes [ [] ↦ panic | b ∷ rest ↦ done (type_of_bits (bit_and b 0x0F)) ]

unfoldable pub payload : List ℕ → Run (List ℕ)
unfolding verify_minimum_size
payload frame_bytes = do
  assert (verify_minimum_size frame_bytes)
  end ← checked_sub (length frame_bytes) frame_crc_size
  slice frame_bytes frame_header_size end

-- `impl SimpleFrame`: the type and the `PAYLOAD_SIZE` of a frame with one fixed body.
pub record SimpleFrame (A : Type 0) : Type 0 where
  pub block : BlockSerial A
  pub frame_type : FrameType
  pub payload_size : ℕ

abbrev pub frame_size : {A : Type 0} → SimpleFrame A → ℕ
frame_size F = F.payload_size + frame_overhead_size

module _ {A : Type 0} (F : SimpleFrame A) where
  -- `SimpleFrameWrite::write`, which gives the slice of `dst` that holds the frame
  unfoldable pub simple_write : A → List ℕ → Run (List ℕ)
  simple_write obj dst = do
    assert (leb (frame_size F) (length dst))
    fw ← frame_writer dst F.frame_type
    (_, fw) ← frame_write (block_serial F.block) obj fw
    (frame, buffer) ← finalize fw
    done frame

  -- `SimpleFrameWrite::write_boxed`, which gives the whole buffer
  unfoldable pub write_boxed : A → Run (List ℕ)
  write_boxed obj = do
    fw ← frame_writer (replicate (frame_size F) 0) F.frame_type
    (_, fw) ← frame_write (block_serial F.block) obj fw
    (frame, buffer) ← finalize fw
    done buffer

  -- `SimplePayloadRead::read`
  unfoldable pub simple_read : List ℕ → Run (Option A)
  unfolding payload_reader
  simple_read src = do
    (obj, pr) ← payload_read (block_serial F.block) (payload_reader src)
    done obj

unfoldable pub write_handshake_alpha : HandshakeAlphaFrame → ℕ → Run (List ℕ)
write_handshake_alpha obj frame_size_max = do
  let size = min frame_size_max handshake_alpha_frame_size_max
  fw ← frame_writer (replicate size 0) handshake_alpha
  (_, fw) ← frame_write (block_serial handshake_alpha_block) obj fw
  (frame, buffer) ← finalize fw
  done buffer
