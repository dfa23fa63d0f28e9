-- ===== src/Frame/Block.antt =====
-- The traits `BlockSerial` and `Serial` of frame/serial/mod.rs, and the nine frame bodies of a
-- fixed size.
pub mod Lawful
pub mod Handshake
pub mod Stream
use redpine_rs.Common.{
  ℕ, ◌≡◌, bit_and, bit_or, Bool, not, Option, none, some, List, ◌++◌, length, Run, done, assert,
  ◌>>=◌, ◌>>◌, ltb, ◌==◌, if◌then◌else◌,
}
use redpine_rs.Frame.{
  ConnectionParams, HandshakeErrorKind, capacity, parameter, HandshakeAlphaFrame,
  HandshakeAlphaAckFrame, HandshakeBetaFrame, HandshakeBetaAckFrame, CloseFrame, CloseAckFrame,
  StreamSegmentHeader, StreamAck, StreamSync,
}
use redpine_rs.Frame.Io.{
  Reader, reader, read_u8, read_u16, read_u32, read_u64, Writer, writer, write_u8, write_u16,
  write_u32, write_u64,
}

pub record BlockSerial (A : Type 0) : Type 0 where
  pub size : ℕ
  pub read : Reader → Run (A × Reader)
  pub write : Writer → A → Run Writer

-- `read` gives `None`, or the value and the number of bytes that it took; `write` gives `None`, or
-- the buffer as it is left and the number of bytes written.
pub record Serial (A : Type 0) : Type 0 where
  pub read : List ℕ → Run (Option (A × ℕ))
  pub write : List ℕ → A → Run (Option (List ℕ × ℕ))

-- `impl<T: BlockSerial> Serial for T`
module _ {A : Type 0} (T : BlockSerial A) where
  unfoldable pub block_read : List ℕ → Run (Option (A × ℕ))
  unfolding reader
  block_read buffer = if ltb (length buffer) T.size then done none else do
    (obj, rd) ← T.read (reader buffer)
    assert (rd.bytes_read == T.size)
    done (some (obj, rd.bytes_read))

  unfoldable pub block_write : List ℕ → A → Run (Option (List ℕ × ℕ))
  unfolding writer
  block_write buffer obj = if ltb (length buffer) T.size then done none else do
    wr ← T.write (writer buffer) obj
    assert (wr.bytes_written == T.size)
    done (some (wr.behind ++ wr.ahead, wr.bytes_written))

  unfoldable pub block_serial : Serial A
  unfolding block_read block_write
  block_serial = record { read = block_read; write = block_write }

-- `info & bit != 0`
abbrev pub has_bit : ℕ → ℕ → Bool
has_bit info bit = not (bit_and info bit == 0)

-- `if b { info |= bit; }`
abbrev pub with_bit : Bool → ℕ → ℕ → ℕ
with_bit b bit info = if b then bit_or info bit else info

unfoldable pub read_handshake_alpha : Reader → Run (HandshakeAlphaFrame × Reader)
read_handshake_alpha rd = do
  (protocol_id, rd) ← read_u16 rd
  (client_nonce, rd) ← read_u32 rd
  done (record { protocol_id = protocol_id; client_nonce = client_nonce }, rd)

unfoldable pub write_handshake_alpha_body : Writer → HandshakeAlphaFrame → Run Writer
write_handshake_alpha_body wr obj = do
  wr ← write_u16 obj.protocol_id wr
  write_u32 obj.client_nonce wr

unfoldable pub read_handshake_alpha_ack : Reader → Run (HandshakeAlphaAckFrame × Reader)
read_handshake_alpha_ack rd = do
  (packet_size_in_max, rd) ← read_u32 rd
  (packet_size_out_max, rd) ← read_u32 rd
  (client_nonce, rd) ← read_u32 rd
  (server_nonce, rd) ← read_u32 rd
  (server_timestamp, rd) ← read_u32 rd
  (server_mac, rd) ← read_u64 rd
  done (
    record {
      server_params = record {
        packet_size_in_max = packet_size_in_max;
        packet_size_out_max = packet_size_out_max;
      };
      client_nonce = client_nonce;
      server_nonce = server_nonce;
      server_timestamp = server_timestamp;
      server_mac = server_mac;
    },
    rd,
  )

unfoldable pub write_handshake_alpha_ack : Writer → HandshakeAlphaAckFrame → Run Writer
write_handshake_alpha_ack wr obj = do
  wr ← write_u32 obj.server_params.packet_size_in_max wr
  wr ← write_u32 obj.server_params.packet_size_out_max wr
  wr ← write_u32 obj.client_nonce wr
  wr ← write_u32 obj.server_nonce wr
  wr ← write_u32 obj.server_timestamp wr
  write_u64 obj.server_mac wr

unfoldable pub read_handshake_beta : Reader → Run (HandshakeBetaFrame × Reader)
read_handshake_beta rd = do
  (packet_size_in_max, rd) ← read_u32 rd
  (packet_size_out_max, rd) ← read_u32 rd
  (client_nonce, rd) ← read_u32 rd
  (server_nonce, rd) ← read_u32 rd
  (server_timestamp, rd) ← read_u32 rd
  (server_mac, rd) ← read_u64 rd
  done (
    record {
      client_params = record {
        packet_size_in_max = packet_size_in_max;
        packet_size_out_max = packet_size_out_max;
      };
      client_nonce = client_nonce;
      server_nonce = server_nonce;
      server_timestamp = server_timestamp;
      server_mac = server_mac;
    },
    rd,
  )

unfoldable pub write_handshake_beta : Writer → HandshakeBetaFrame → Run Writer
write_handshake_beta wr obj = do
  wr ← write_u32 obj.client_params.packet_size_in_max wr
  wr ← write_u32 obj.client_params.packet_size_out_max wr
  wr ← write_u32 obj.client_nonce wr
  wr ← write_u32 obj.server_nonce wr
  wr ← write_u32 obj.server_timestamp wr
  write_u64 obj.server_mac wr

-- the `match status`
abbrev pub error_of_status : ℕ → Option HandshakeErrorKind
error_of_status status =
    if status == 0x00 then none else if status == 0x01 then some capacity else some parameter

abbrev pub status_of_error : Option HandshakeErrorKind → ℕ
status_of_error none = 0x00
status_of_error (some capacity) = 0x01
status_of_error (some parameter) = 0x02

unfoldable pub read_handshake_beta_ack : Reader → Run (HandshakeBetaAckFrame × Reader)
read_handshake_beta_ack rd = do
  (status, rd) ← read_u8 rd
  (client_nonce, rd) ← read_u32 rd
  done (record { error = error_of_status status; client_nonce = client_nonce }, rd)

unfoldable pub write_handshake_beta_ack : Writer → HandshakeBetaAckFrame → Run Writer
write_handshake_beta_ack wr obj = do
  wr ← write_u8 (status_of_error obj.error) wr
  write_u32 obj.client_nonce wr

unfoldable pub read_close : Reader → Run (CloseFrame × Reader)
read_close rd = do
  (remote_nonce, rd) ← read_u32 rd
  done (record { remote_nonce = remote_nonce }, rd)

unfoldable pub write_close : Writer → CloseFrame → Run Writer
write_close wr obj = write_u32 obj.remote_nonce wr

unfoldable pub read_close_ack : Reader → Run (CloseAckFrame × Reader)
read_close_ack rd = do
  (remote_nonce, rd) ← read_u32 rd
  done (record { remote_nonce = remote_nonce }, rd)

unfoldable pub write_close_ack : Writer → CloseAckFrame → Run Writer
write_close_ack wr obj = write_u32 obj.remote_nonce wr

unfoldable pub read_segment_header : Reader → Run (StreamSegmentHeader × Reader)
read_segment_header rd = do
  (info, rd) ← read_u8 rd
  (id, rd) ← read_u32 rd
  done (record { id = id; nonce = has_bit info 0x01 }, rd)

unfoldable pub write_segment_header : Writer → StreamSegmentHeader → Run Writer
write_segment_header wr obj = do wr ← write_u8 (with_bit obj.nonce 0x01 0) wr; write_u32 obj.id wr

unfoldable pub read_stream_ack : Reader → Run (StreamAck × Reader)
read_stream_ack rd = do
  (info, rd) ← read_u8 rd
  (segment_id, rd) ← read_u32 rd
  (rel_fragment_id, rd) ← read_u32 rd
  done (
    record {
      segment_id = segment_id;
      segment_history = bit_and info 0x1F;
      segment_checksum = has_bit info 0x20;
      rel_fragment_id = if has_bit info 0x80 then some rel_fragment_id else none;
    },
    rd,
  )

abbrev pub is_some : Option ℕ → Bool
is_some none = Bool.false
is_some (some id) = Bool.true

abbrev pub unwrap_or_zero : Option ℕ → ℕ
unwrap_or_zero none = 0
unwrap_or_zero (some id) = id

-- The byte `info` of an ack.
unfoldable pub ack_info : StreamAck → ℕ
ack_info obj =
    let info = with_bit (is_some obj.rel_fragment_id) 0x80 0 in
    let info' = with_bit obj.segment_checksum 0x20 info in
    bit_or info' (bit_and obj.segment_history 0x1F)

unfoldable pub write_stream_ack : Writer → StreamAck → Run Writer
unfolding ack_info
write_stream_ack wr obj = do
  wr ← write_u8 (ack_info obj) wr
  wr ← write_u32 obj.segment_id wr
  write_u32 (unwrap_or_zero obj.rel_fragment_id) wr

unfoldable pub read_stream_sync : Reader → Run (StreamSync × Reader)
read_stream_sync rd = do
  (next_segment_id, rd) ← read_u32 rd
  done (record { next_segment_id = next_segment_id }, rd)

unfoldable pub write_stream_sync : Writer → StreamSync → Run Writer
write_stream_sync wr obj = write_u32 obj.next_segment_id wr

-- The sizes, from `HANDSHAKE_ALPHA_SIZE` to `STREAM_SYNC_SIZE`.
abbrev pub handshake_alpha_size : ℕ
handshake_alpha_size = 6

abbrev pub handshake_alpha_ack_size : ℕ
handshake_alpha_ack_size = 28

abbrev pub handshake_beta_size : ℕ
handshake_beta_size = 28

abbrev pub handshake_beta_ack_size : ℕ
handshake_beta_ack_size = 5

abbrev pub close_size : ℕ
close_size = 4

abbrev pub close_ack_size : ℕ
close_ack_size = 4

abbrev pub stream_segment_header_size : ℕ
stream_segment_header_size = 5

abbrev pub stream_ack_size : ℕ
stream_ack_size = 9

abbrev pub stream_sync_size : ℕ
stream_sync_size = 4

abbrev pub handshake_alpha_block : BlockSerial HandshakeAlphaFrame
handshake_alpha_block = record {
  size = handshake_alpha_size;
  read = read_handshake_alpha;
  write = write_handshake_alpha_body;
}

abbrev pub handshake_alpha_ack_block : BlockSerial HandshakeAlphaAckFrame
handshake_alpha_ack_block = record {
  size = handshake_alpha_ack_size;
  read = read_handshake_alpha_ack;
  write = write_handshake_alpha_ack;
}

abbrev pub handshake_beta_block : BlockSerial HandshakeBetaFrame
handshake_beta_block = record {
  size = handshake_beta_size;
  read = read_handshake_beta;
  write = write_handshake_beta;
}

abbrev pub handshake_beta_ack_block : BlockSerial HandshakeBetaAckFrame
handshake_beta_ack_block = record {
  size = handshake_beta_ack_size;
  read = read_handshake_beta_ack;
  write = write_handshake_beta_ack;
}

abbrev pub close_block : BlockSerial CloseFrame
close_block = record { size = close_size; read = read_close; write = write_close }

abbrev pub close_ack_block : BlockSerial CloseAckFrame
close_ack_block = record { size = close_ack_size; read = read_close_ack; write = write_close_ack }

abbrev pub stream_segment_header_block : BlockSerial StreamSegmentHeader
stream_segment_header_block = record {
  size = stream_segment_header_size;
  read = read_segment_header;
  write = write_segment_header;
}

abbrev pub stream_ack_block : BlockSerial StreamAck
stream_ack_block = record {
  size = stream_ack_size;
  read = read_stream_ack;
  write = write_stream_ack;
}

abbrev pub stream_sync_block : BlockSerial StreamSync
stream_sync_block = record {
  size = stream_sync_size;
  read = read_stream_sync;
  write = write_stream_sync;
}
