-- ===== src/Frame/Block/Stream.antt =====
-- About the bodies of the close and stream frames of frame/serial/mod.rs.
use redpine_rs.Common.{
  if◌then◌else◌, Option, ◌<◌, ℕ, ◌+◌, ◌≡◌, refl, arith, List, [], ◌∷◌, ◌++◌, Bool, true, false,
  ◌&&◌, bit_and, bit_or, none, some, done, ◌==◌, not,
}
use redpine_rs.Common.Word.{IsU32}
use redpine_rs.Common.Table.{holds_throughout, holds_throughout-lookup}
use redpine_rs.Frame.{CloseFrame, CloseAckFrame, StreamSegmentHeader, StreamAck, StreamSync}
use redpine_rs.Frame.Io.{read_u8, read_u32, be_bytes_u32}
use redpine_rs.Frame.Io.BigEndian.{be_u32-be_bytes}
use redpine_rs.Frame.Io.Laws.{
  write_u8_lem, write_u32_lem, Writes-then, Takes-then, Takes-done, Writes, Takes, done_after,
  read_u8_total, read_u32_total,
}
use redpine_rs.Frame.Block.{
  has_bit, with_bit, read_close, write_close, close_block, read_close_ack, write_close_ack,
  close_ack_block, read_segment_header, write_segment_header, stream_segment_header_block,
  read_stream_ack, write_stream_ack, ack_info, stream_ack_block, read_stream_sync,
  write_stream_sync, stream_sync_block, is_some, unwrap_or_zero,
}
use redpine_rs.Frame.Block.Lawful.{IsLawful}

abbrev pub CloseFits : CloseFrame → Type 0
CloseFits a = IsU32 a.remote_nonce

close_encode : CloseFrame → List ℕ
close_encode a = be_bytes_u32 a.remote_nonce

close_read :
    (a : CloseFrame)
    → CloseFits a
    → (rest : List ℕ) (n : ℕ)
    → read_close (record { ptr = close_encode a ++ rest; bytes_read = n })
      ≡ done (a, record { ptr = rest; bytes_read = n + 4 })
unfolding read_close close_encode read_u32 be_bytes_u32
close_read a f rest n = rw (be_u32-be_bytes _ f) (done_after a rest (omega arith))

close_total : Takes read_close 4
unfolding read_close
close_total = Takes-then _ 4 0 read_u32_total λ c. Takes-done _

pub close-IsLawful : IsLawful close_block CloseFits
unfolding close_encode be_bytes_u32 write_close
close-IsLawful = record {
  encode = close_encode;
  length-encode = λ a. refl;
  write_encodes = λ a. write_u32_lem a.remote_nonce;
  read_decodes = close_read;
  read_total = close_total;
}

pub close-encode : (a : CloseFrame) → close-IsLawful.encode a ≡ be_bytes_u32 a.remote_nonce
unfolding close-IsLawful close_encode
close-encode a = refl

abbrev pub CloseAckFits : CloseAckFrame → Type 0
CloseAckFits a = IsU32 a.remote_nonce

close_ack_encode : CloseAckFrame → List ℕ
close_ack_encode a = be_bytes_u32 a.remote_nonce

close_ack_read :
    (a : CloseAckFrame)
    → CloseAckFits a
    → (rest : List ℕ) (n : ℕ)
    → read_close_ack (record { ptr = close_ack_encode a ++ rest; bytes_read = n })
      ≡ done (a, record { ptr = rest; bytes_read = n + 4 })
unfolding read_close_ack close_ack_encode read_u32 be_bytes_u32
close_ack_read a f rest n = rw (be_u32-be_bytes _ f) (done_after a rest (omega arith))

close_ack_total : Takes read_close_ack 4
unfolding read_close_ack
close_ack_total = Takes-then _ 4 0 read_u32_total λ c. Takes-done _

pub close_ack-IsLawful : IsLawful close_ack_block CloseAckFits
unfolding close_ack_encode be_bytes_u32 write_close_ack
close_ack-IsLawful = record {
  encode = close_ack_encode;
  length-encode = λ a. refl;
  write_encodes = λ a. write_u32_lem a.remote_nonce;
  read_decodes = close_ack_read;
  read_total = close_ack_total;
}

pub close_ack-encode :
    (a : CloseAckFrame) → close_ack-IsLawful.encode a ≡ be_bytes_u32 a.remote_nonce
unfolding close_ack-IsLawful close_ack_encode
close_ack-encode a = refl

abbrev pub StreamSyncFits : StreamSync → Type 0
StreamSyncFits a = IsU32 a.next_segment_id

stream_sync_encode : StreamSync → List ℕ
stream_sync_encode a = be_bytes_u32 a.next_segment_id

stream_sync_read :
    (a : StreamSync)
    → StreamSyncFits a
    → (rest : List ℕ) (n : ℕ)
    → read_stream_sync (record { ptr = stream_sync_encode a ++ rest; bytes_read = n })
      ≡ done (a, record { ptr = rest; bytes_read = n + 4 })
unfolding read_stream_sync stream_sync_encode read_u32 be_bytes_u32
stream_sync_read a f rest n = rw (be_u32-be_bytes _ f) (done_after a rest (omega arith))

stream_sync_total : Takes read_stream_sync 4
unfolding read_stream_sync
stream_sync_total = Takes-then _ 4 0 read_u32_total λ c. Takes-done _

pub stream_sync-IsLawful : IsLawful stream_sync_block StreamSyncFits
unfolding stream_sync_encode be_bytes_u32 write_stream_sync
stream_sync-IsLawful = record {
  encode = stream_sync_encode;
  length-encode = λ a. refl;
  write_encodes = λ a. write_u32_lem a.next_segment_id;
  read_decodes = stream_sync_read;
  read_total = stream_sync_total;
}

abbrev pub SegmentHeaderFits : StreamSegmentHeader → Type 0
SegmentHeaderFits a = IsU32 a.id

segment_header_encode : StreamSegmentHeader → List ℕ
segment_header_encode a = with_bit a.nonce 0x01 0 ∷ be_bytes_u32 a.id

segment_header_write :
    (a : StreamSegmentHeader) → Writes (λ wr. write_segment_header wr a) (segment_header_encode a)
unfolding segment_header_encode write_segment_header
segment_header_write a =
    Writes-then (with_bit a.nonce 0x01 0 ∷ []) _ (write_u8_lem (with_bit a.nonce 0x01 0))
      (write_u32_lem a.id)

nonce_bit : (b : Bool) → has_bit (with_bit b 0x01 0) 0x01 ≡ b
nonce_bit true = refl
nonce_bit false = refl

segment_header_read :
    (a : StreamSegmentHeader)
    → SegmentHeaderFits a
    → (rest : List ℕ) (n : ℕ)
    → read_segment_header (record { ptr = segment_header_encode a ++ rest; bytes_read = n })
      ≡ done (a, record { ptr = rest; bytes_read = n + 5 })
unfolding read_segment_header segment_header_encode read_u8 read_u32 be_bytes_u32
segment_header_read a f rest n =
    rw (be_u32-be_bytes _ f, nonce_bit a.nonce) (done_after a rest (omega arith))

segment_header_total : Takes read_segment_header 5
unfolding read_segment_header
segment_header_total =
    Takes-then _ 1 4 read_u8_total λ s. Takes-then _ 4 0 read_u32_total λ c. Takes-done _

-- The body is written as five bytes; those of a segment header with an id of 32 bits read back as
-- it; and reading where five bytes are left takes just these.
pub stream_segment_header-IsLawful : IsLawful stream_segment_header_block SegmentHeaderFits
unfolding segment_header_encode be_bytes_u32
stream_segment_header-IsLawful = record {
  encode = segment_header_encode;
  length-encode = λ a. refl;
  write_encodes = segment_header_write;
  read_decodes = segment_header_read;
  read_total = segment_header_total;
}

-- An ack carries five bits of history, and the fragment id only if there is one.
abbrev pub AckFits : StreamAck → Type 0
AckFits a = IsU32 a.segment_id × (a.segment_history < 32) × IsU32 (unwrap_or_zero a.rel_fragment_id)

-- The byte `info` for given flags.
abbrev info_of : Bool → Bool → ℕ → ℕ
info_of rel sum history = bit_or (with_bit sum 0x20 (with_bit rel 0x80 0)) (bit_and history 0x1F)

abbrev bool_eq : Bool → Bool → Bool
bool_eq true b = b
bool_eq false b = not b

info_holds : Bool → Bool → ℕ → Bool
info_holds rel sum history =
    (bit_and (info_of rel sum history) 0x1F == history)
    && bool_eq sum (has_bit (info_of rel sum history) 0x20)
    && bool_eq rel (has_bit (info_of rel sum history) 0x80)

info_table : (rel sum : Bool) → holds_throughout (info_holds rel sum) 32 ≡ true
unfolding holds_throughout info_holds
info_table true true = refl
info_table true false = refl
info_table false true = refl
info_table false false = refl

-- The three parts of the byte come apart again.
info_parts :
    (rel sum : Bool) (history : ℕ)
    → history < 32
    → (bit_and (info_of rel sum history) 0x1F ≡ history)
      × (has_bit (info_of rel sum history) 0x20 ≡ sum)
      × (has_bit (info_of rel sum history) 0x80 ≡ rel)
info_parts rel sum history h =
    parts rel sum (holds_throughout-lookup (info_holds rel sum) 32 history (info_table rel sum) h)
  where
    parts :
        (r s : Bool)
        → info_holds r s history ≡ true
        → (bit_and (info_of r s history) 0x1F ≡ history)
          × (has_bit (info_of r s history) 0x20 ≡ s)
          × (has_bit (info_of r s history) 0x80 ≡ r)
    parts true true e = unfold info_holds in ground arith
    parts true false e = unfold info_holds in ground arith
    parts false true e = unfold info_holds in ground arith
    parts false false e = unfold info_holds in ground arith

stream_ack_encode : StreamAck → List ℕ
unfolding ack_info
stream_ack_encode a =
    ack_info a ∷ be_bytes_u32 a.segment_id ++ be_bytes_u32 (unwrap_or_zero a.rel_fragment_id)

stream_ack_write : (a : StreamAck) → Writes (λ wr. write_stream_ack wr a) (stream_ack_encode a)
unfolding stream_ack_encode write_stream_ack
stream_ack_write a = Writes-then (ack_info a ∷ []) _ (write_u8_lem (ack_info a)) (
    Writes-then _ _ (write_u32_lem a.segment_id) (write_u32_lem (unwrap_or_zero a.rel_fragment_id)))

rel_back : (o : Option ℕ) → (if is_some o then some (unwrap_or_zero o) else none) ≡ o
rel_back none = refl
rel_back (some id) = refl

stream_ack_read :
    (a : StreamAck)
    → AckFits a
    → (rest : List ℕ) (n : ℕ)
    → read_stream_ack (record { ptr = stream_ack_encode a ++ rest; bytes_read = n })
      ≡ done (a, record { ptr = rest; bytes_read = n + 9 })
unfolding read_stream_ack stream_ack_encode read_u8 read_u32 be_bytes_u32
stream_ack_read a f rest n =
    let (low, sum, rel) =
      info_parts (is_some a.rel_fragment_id) a.segment_checksum a.segment_history f.1 in
    rw (be_u32-be_bytes _ f.0, be_u32-be_bytes _ f.2, low, sum, rel, rel_back a.rel_fragment_id)
      (done_after a rest (omega arith))

stream_ack_total : Takes read_stream_ack 9
unfolding read_stream_ack
stream_ack_total =
    Takes-then _ 1 8 read_u8_total
      λ s. Takes-then _ 4 4 read_u32_total λ c. Takes-then _ 4 0 read_u32_total λ d. Takes-done _

-- The body is written as nine bytes; those of an ack with ids of 32 bits and a history of 5 bits
-- read back as it; and reading where nine bytes are left takes just these.
pub stream_ack-IsLawful : IsLawful stream_ack_block AckFits
unfolding stream_ack_encode be_bytes_u32
stream_ack-IsLawful = record {
  encode = stream_ack_encode;
  length-encode = λ a. refl;
  write_encodes = stream_ack_write;
  read_decodes = stream_ack_read;
  read_total = stream_ack_total;
}
