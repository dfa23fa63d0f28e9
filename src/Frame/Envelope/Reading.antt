-- ===== src/Frame/Envelope/Reading.antt =====
-- About the receiver's functions of frame/serial/mod.rs, on a finished frame.
use redpine_rs.Common.{
  ◌≤◌, ℕ, ◌+◌, ◌-◌, ◌*◌, ◌^◌, ◌≡◌, refl, ap, ◌∙◌, arith, true, some, List, ◌∷◌, ◌++◌, length,
  length-append, take-append, take_all, drop-append, done, leb, le→leb, ==-self, bit_and,
}
use redpine_rs.Common.Word.{IsU32, u8, ◌>>>◌}
use redpine_rs.Frame.{
  FrameType, handshake_alpha, handshake_alpha_ack, handshake_beta, handshake_beta_ack, close,
  close_ack, stream_segment, stream_ack, stream_segment_ack, stream_sync,
}
use redpine_rs.Frame.Crc.{compute}
use redpine_rs.Frame.Crc.Bound.{compute-IsU32}
use redpine_rs.Frame.Block.{Serial}
use redpine_rs.Frame.Codec.{IsCodec}
use redpine_rs.Frame.Envelope.{
  slice, type_bits, type_of_bits, to_le_bytes, verify_crc, read_type, verify_minimum_size, payload,
  payload_read,
}
use redpine_rs.Frame.Envelope.Writing.{slice_lem, slice_prefix}

le_sum :
    (crc : ℕ)
    → IsU32 crc
    → u8 crc + u8 (crc >>> 8) * 2 ^ 8 + u8 (crc >>> 16) * 2 ^ 16 + u8 (crc >>> 24) * 2 ^ 24 ≡ crc
le_sum crc h = omega arith

abbrev pub frame_of : FrameType → List ℕ → List ℕ
frame_of t body = (type_bits t ∷ body) ++ to_le_bytes (compute (type_bits t ∷ body))

pub slice_suffix :
    (xs ys : List ℕ) (e : ℕ) → e ≡ length xs → slice (xs ++ ys) e (length (xs ++ ys)) ≡ done ys
slice_suffix xs ys e same =
    slice_lem (xs ++ ys) e (length (xs ++ ys)) (omega (arith, length-append xs ys)) (omega arith)
    ∙ ap done (
        rw (drop-append e xs ys same)
          (take_all (length (xs ++ ys) - e) ys (omega (arith, length-append xs ys))))

-- The checksum that `finalize` appends is the one that `verify_crc` expects.
pub verify_crc-appended :
    (content : List ℕ) → verify_crc (content ++ to_le_bytes (compute content)) ≡ done true
unfolding verify_crc
verify_crc-appended content =
    let crc_bytes = to_le_bytes (compute content) in
    let total : length (content ++ crc_bytes) ≡ length content + 4 =
      length-append content crc_bytes in
    rw (le→leb 4 (length (content ++ crc_bytes)) (omega arith)) (
      rw (slice_prefix content crc_bytes (length (content ++ crc_bytes) - 4) (omega arith)) (
        rw (slice_suffix content crc_bytes (length (content ++ crc_bytes) - 4) (omega arith)) (
          rw (le_sum (compute content) (compute-IsU32 content))
            (ap done (==-self (compute content))))))

type_back : (t : FrameType) → type_of_bits (bit_and (type_bits t) 0x0F) ≡ some t
unfolding type_of_bits type_bits
type_back handshake_alpha = refl
type_back handshake_alpha_ack = refl
type_back handshake_beta = refl
type_back handshake_beta_ack = refl
type_back close = refl
type_back close_ack = refl
type_back stream_segment = refl
type_back stream_ack = refl
type_back stream_segment_ack = refl
type_back stream_sync = refl

-- The type is that of the first byte, whatever follows it.
pub read_type_lem :
    (t : FrameType) (rest : List ℕ)
    → 4 ≤ length rest
    → read_type (type_bits t ∷ rest) ≡ done (some t)
unfolding read_type verify_minimum_size
read_type_lem t rest h =
    rw (le→leb 5 (length (type_bits t ∷ rest)) (omega arith)) (ap done (type_back t))

-- A type byte, any body and the checksum of both make a frame that is large enough, has a good
-- checksum, that type, and that payload.
pub frame_of_accepted :
    (t : FrameType) (body : List ℕ)
    → (verify_minimum_size (frame_of t body) ≡ true)
      × (verify_crc (frame_of t body) ≡ done true)
      × (read_type (frame_of t body) ≡ done (some t))
      × (payload (frame_of t body) ≡ done body)
unfolding verify_minimum_size payload
frame_of_accepted t body =
    let crc_bytes = to_le_bytes (compute (type_bits t ∷ body)) in
    let total : length (frame_of t body) ≡ 5 + length body =
      omega (arith, length-append body crc_bytes) in
    let enough : leb 5 (length (frame_of t body)) ≡ true =
      le→leb 5 (length (frame_of t body)) (omega arith) in
    (
      enough,
      verify_crc-appended (type_bits t ∷ body),
      read_type_lem t (body ++ crc_bytes) (omega arith),
      rw (enough, le→leb 4 (length (frame_of t body)) (omega arith))
          (slice_lem (frame_of t body) 1 (length (frame_of t body) - 4) (omega arith) (omega arith)
            ∙ ap done
                (take-append (length (frame_of t body) - 4 - 1) body crc_bytes (omega arith))),
    )

module _ {A : Type 0} {S : Serial A} {Fits : A → Type 0} (codec : IsCodec S Fits) where
  -- A reader that has come to the encoding of a value reads the value, and stands behind it.
  pub payload_read_back :
      (before : List ℕ) (a : A)
      → Fits a
      → (after : List ℕ)
      → payload_read S
          (record { buffer = before ++ (codec.encode a ++ after); read_idx = length before })
        ≡ done (
          some a,
          record {
            buffer = before ++ (codec.encode a ++ after);
            read_idx = length before + length (codec.encode a);
          },
        )
  unfolding payload_read
  payload_read_back before a fits after =
      rw (slice_suffix before (codec.encode a ++ after) (length before) refl)
        (rw (codec.read_back a fits after))
