-- ===== src/Frame/DatagramSerial.antt =====
-- `impl Serial for Datagram` of frame/serial/mod.rs: a header of seven bytes and up to 65535 of data.
pub mod Laws
use redpine_rs.Common.{
  ℕ, ◌+◌, ◌%◌, ◌^◌, Option, none, some, List, ◌++◌, length, take, drop, Run, done, assert, ◌>>=◌,
  ◌>>◌, ltb, leb, ◌==◌, if◌then◌else◌,
}
use redpine_rs.Frame.{Datagram}
use redpine_rs.Frame.Io.{
  reader, read_u8, read_u16, read_u32, writer, write_u8, write_u16, write_u32, write_slice,
}
use redpine_rs.Frame.Block.{Serial, has_bit, with_bit}

abbrev pub datagram_header_size : ℕ
datagram_header_size = 7

abbrev pub datagram_data_size_max : ℕ
datagram_data_size_max = 65535

unfoldable pub datagram_read : List ℕ → Run (Option (Datagram × ℕ))
unfolding reader
datagram_read src = if ltb (length src) datagram_header_size then done none else do
  (info_bits, rd) ← read_u8 (reader src)
  (id, rd) ← read_u32 rd
  (data_len, rd) ← read_u16 rd
  assert (rd.bytes_read == datagram_header_size)
  done (
      if ltb (length src) (datagram_header_size + data_len)
      then none
      else some (
        record {
          id = id;
          unrel = has_bit info_bits 0x01;
          first = has_bit info_bits 0x02;
          last = has_bit info_bits 0x04;
          bytes = take data_len (drop datagram_header_size src);
        },
        datagram_header_size + data_len,
      ))

unfoldable pub info_bits : Datagram → ℕ
info_bits obj = with_bit obj.last 0x04 (with_bit obj.first 0x02 (with_bit obj.unrel 0x01 0))

unfoldable pub datagram_write : List ℕ → Datagram → Run (Option (List ℕ × ℕ))
unfolding writer info_bits
datagram_write dst obj =
    if ltb (length dst) (datagram_header_size + length obj.bytes) then done none else do
      assert (leb (length obj.bytes) datagram_data_size_max)
      wr ← write_u8 (info_bits obj) (writer dst)
      wr ← write_u32 obj.id wr
      wr ← write_u16 (length obj.bytes % 2 ^ 16) wr
      assert (wr.bytes_written == datagram_header_size)
      wr ← write_slice obj.bytes wr
      done (some (wr.behind ++ wr.ahead, datagram_header_size + length obj.bytes))

unfoldable pub datagram_serial : Serial Datagram
unfolding datagram_read datagram_write
datagram_serial = record { read = datagram_read; write = datagram_write }
