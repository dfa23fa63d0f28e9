-- ===== src/Frame/Envelope/Simple.antt =====
-- The frames with one fixed body, as they are sent and received whole.
use redpine_rs.Common.{
  refl, none, ◌<◌, ◌>>=◌, drop-drop, drop-replicate, ℕ, ◌+◌, ◌-◌, ◌≤◌, ◌≡◌, sym, ap, ◌∙◌, arith,
  true, some, List, [], ◌∷◌, ◌++◌, append-nil, append_assoc, length, drop, replicate, length-append,
  length-drop, length-replicate, Run, done, le→leb, min, ==-self,
}
use redpine_rs.Frame.{
  FrameType, handshake_alpha, handshake_alpha_ack, handshake_beta, handshake_beta_ack, close,
  close_ack, stream_sync, HandshakeAlphaFrame, HandshakeAlphaAckFrame, HandshakeBetaFrame,
  HandshakeBetaAckFrame, CloseFrame, CloseAckFrame, StreamSync,
}
use redpine_rs.Frame.Crc.{compute}
use redpine_rs.Frame.Block.{
  BlockSerial, block_serial, handshake_alpha_block, handshake_alpha_ack_block, handshake_beta_block,
  handshake_beta_ack_block, close_block, close_ack_block, stream_sync_block, handshake_alpha_size,
  handshake_alpha_ack_size, handshake_beta_size, handshake_beta_ack_size, stream_sync_size,
}
use redpine_rs.Frame.Block.Lawful.{block_read_short, IsLawful}
use redpine_rs.Frame.Block.Handshake.{handshake_alpha-IsLawful, AlphaFits}
use redpine_rs.Frame.Codec.{block-IsCodec}
use redpine_rs.Frame.Envelope.{
  payload_read, finalize, frame_write, frame_writer, type_bits, to_le_bytes, SimpleFrame,
  frame_size, simple_write, write_boxed, simple_read, payload_reader, verify_crc, read_type,
  payload, verify_minimum_size, write_handshake_alpha, verify_handshake_alpha_size_and_crc,
}
use redpine_rs.Frame.Envelope.Writing.{
  frame_writer_lem, frame_write_fits, finalize_lem, slice_prefix,
}
use redpine_rs.Frame.Envelope.Reading.{
  slice_suffix, frame_of, frame_of_accepted, payload_read_back, read_type_lem,
}

abbrev pub handshake_alpha_frame : SimpleFrame HandshakeAlphaFrame
handshake_alpha_frame = record {
  block = handshake_alpha_block;
  frame_type = handshake_alpha;
  payload_size = handshake_alpha_size;
}

abbrev pub handshake_alpha_ack_frame : SimpleFrame HandshakeAlphaAckFrame
handshake_alpha_ack_frame = record {
  block = handshake_alpha_ack_block;
  frame_type = handshake_alpha_ack;
  payload_size = handshake_alpha_ack_size;
}

abbrev pub handshake_beta_frame : SimpleFrame HandshakeBetaFrame
handshake_beta_frame = record {
  block = handshake_beta_block;
  frame_type = handshake_beta;
  payload_size = handshake_beta_size;
}

abbrev pub handshake_beta_ack_frame : SimpleFrame HandshakeBetaAckFrame
handshake_beta_ack_frame = record {
  block = handshake_beta_ack_block;
  frame_type = handshake_beta_ack;
  payload_size = handshake_beta_ack_size;
}

-- `PAYLOAD_SIZE` of a close frame is `HANDSHAKE_BETA_SIZE`, not the size of its body.
abbrev pub close_frame : SimpleFrame CloseFrame
close_frame = record { block = close_block; frame_type = close; payload_size = handshake_beta_size }

abbrev pub close_ack_frame : SimpleFrame CloseAckFrame
close_ack_frame = record {
  block = close_ack_block;
  frame_type = close_ack;
  payload_size = handshake_beta_ack_size;
}

abbrev pub stream_sync_frame : SimpleFrame StreamSync
stream_sync_frame = record {
  block = stream_sync_block;
  frame_type = stream_sync;
  payload_size = stream_sync_size;
}

-- The calls that `write_boxed` and `write_handshake_alpha` make on a new buffer of `n` zeros.
abbrev boxed : {A : Type 0} → BlockSerial A → FrameType → ℕ → A → Run (List ℕ)
boxed T t n obj = do
  fw ← frame_writer (replicate n 0) t
  (_, fw) ← frame_write (block_serial T) obj fw
  (frame, buffer) ← finalize fw
  done buffer

module _ {A : Type 0} {T : BlockSerial A} {Fits : A → Type 0} (lawful : IsLawful T Fits) where
  open lawful use {encode, length-encode}

  left_over :
      (n : ℕ) (obj : A)
      → drop 4 (drop (length (encode obj)) (drop 1 (replicate {A = ℕ} n 0)))
        ≡ replicate (n - (T.size + 5)) 0
  left_over n obj =
      drop-drop 4 (length (encode obj)) _
      ∙ drop-drop (length (encode obj) + 4) 1 (replicate n 0)
      ∙ drop-replicate _ n 0
      ∙ ap (λ k. replicate k 0) same
    where
      same : n - (1 + (length (encode obj) + 4)) ≡ n - (T.size + 5)
      same = omega (arith, length-encode obj)

  -- Behind the frame the buffer keeps its zeros.
  boxed_lem :
      (t : FrameType) (n : ℕ) (obj : A)
      → Fits obj
      → T.size + 5 ≤ n
      → boxed T t n obj ≡ done (frame_of t (encode obj) ++ replicate (n - (T.size + 5)) 0)
  unfolding block-IsCodec
  boxed_lem t n obj fits h =
      let head = type_bits t ∷ [] in
      let zeros : List ℕ = replicate n 0 in
      let tail = drop 1 zeros in
      let total : length zeros ≡ n = length-replicate n 0 in
      let len : length tail ≡ length zeros - 1 = length-drop 1 zeros in
      let size = length-encode obj in
      let body = head ++ encode obj in
      let rest = drop (length (encode obj)) tail in
      let rest_len = length-drop (length (encode obj)) tail in
      rw
        (
          frame_writer_lem zeros t (omega arith),
          frame_write_fits head tail (omega arith) (block-IsCodec lawful) obj fits (omega arith),
          finalize_lem body rest (omega arith),
          left_over n obj,
        )
        (ap done
          (sym (append_assoc body (to_le_bytes (compute body)) (replicate (n - (T.size + 5)) 0))))

  pub length-frame_of : (t : FrameType) (obj : A) → length (frame_of t (encode obj)) ≡ T.size + 5
  length-frame_of t obj = omega (
    arith,
    length-append (encode obj) (to_le_bytes (compute (type_bits t ∷ encode obj))),
    length-encode obj,
  )

module _ {A : Type 0} (F : SimpleFrame A) {Fits : A → Type 0} (lawful : IsLawful F.block Fits) where
  open lawful use {encode, length-encode}

  -- The three writer calls that `write` and `write_boxed` make, on a buffer with room.
  pub simple_write_lem :
      (obj : A) (dst : List ℕ)
      → Fits obj
      → F.block.size ≤ F.payload_size
      → frame_size F ≤ length dst
      → simple_write F obj dst ≡ done (frame_of F.frame_type (encode obj))
  unfolding simple_write block-IsCodec
  simple_write_lem obj dst fits h room =
      let head = type_bits F.frame_type ∷ [] in
      let tail = drop 1 dst in
      let len : length tail ≡ length dst - 1 = length-drop 1 dst in
      rw (
        le→leb (frame_size F) (length dst) room,
        frame_writer_lem dst F.frame_type (omega arith),
        frame_write_fits head tail (omega arith) (block-IsCodec lawful) obj fits
            (omega (arith, length-encode obj)),
        finalize_lem (head ++ encode obj) (drop (length (encode obj)) tail)
            (omega (arith, length-encode obj, length-drop (length (encode obj)) tail)),
      )

  pub simple_read_back : (obj : A) → Fits obj → simple_read F (encode obj) ≡ done (some obj)
  unfolding simple_read payload_reader block-IsCodec
  simple_read_back obj fits =
      rw (rw (append-nil (encode obj)) at (payload_read_back (block-IsCodec lawful) [] obj fits []))

  -- For a frame whose body fits its `PAYLOAD_SIZE`: a value whose fields fit, written into a
  -- buffer of at least `FRAME_SIZE` bytes, gives a frame that passes the receiver's checks of
  -- size and checksum and has its type, and the payload reads back as the value.
  pub simple_round_trip :
      (obj : A) (dst : List ℕ)
      → Fits obj
      → F.block.size ≤ F.payload_size
      → frame_size F ≤ length dst
      → (frame body : List ℕ) × (simple_write F obj dst ≡ done frame)
        × (verify_minimum_size frame ≡ true)
        × (verify_crc frame ≡ done true)
        × (read_type frame ≡ done (some F.frame_type))
        × (payload frame ≡ done body)
        × (simple_read F body ≡ done (some obj))
  simple_round_trip obj dst fits h room =
      let (size, crc, type, body) = frame_of_accepted F.frame_type (encode obj) in
      (
        frame_of F.frame_type (encode obj),
        encode obj,
        simple_write_lem obj dst fits h room,
        size,
        crc,
        type,
        body,
        simple_read_back obj fits,
      )

  -- `write_boxed` gives the frame with a zero behind it for each byte by which `PAYLOAD_SIZE` exceeds
  -- the size of the body.
  pub write_boxed_lem :
      (obj : A)
      → Fits obj
      → F.block.size ≤ F.payload_size
      → write_boxed F obj
        ≡ done (frame_of F.frame_type (encode obj) ++ replicate (F.payload_size - F.block.size) 0)
  unfolding write_boxed
  write_boxed_lem obj fits h =
      boxed_lem lawful F.frame_type (frame_size F) obj fits (omega arith)
      ∙ ap (λ k. done (frame_of F.frame_type (encode obj) ++ replicate k 0)) (omega arith)

-- The padded frame: the frame itself, and zeros up to its size.
pub write_handshake_alpha-padded :
    (obj : HandshakeAlphaFrame) (frame_size_max : ℕ)
    → AlphaFits obj
    → 11 ≤ frame_size_max
    → write_handshake_alpha obj frame_size_max
      ≡ done (
          frame_of handshake_alpha (handshake_alpha-IsLawful.encode obj)
          ++ replicate (min frame_size_max 1472 - 11) 0)
unfolding write_handshake_alpha
write_handshake_alpha-padded obj frame_size_max fits h =
    boxed_lem handshake_alpha-IsLawful handshake_alpha (min frame_size_max 1472) obj fits
      (omega arith)

-- The padded first frame of a client, its fields fitting, passes the server's check of size and
-- checksum, for any maximum of at least eleven bytes that both use, and its type is that of a
-- first frame.
pub write_handshake_alpha-verified :
    (obj : HandshakeAlphaFrame) (frame_size_max : ℕ)
    → AlphaFits obj
    → 11 ≤ frame_size_max
    → (buffer : List ℕ) × (write_handshake_alpha obj frame_size_max ≡ done buffer)
      × (verify_handshake_alpha_size_and_crc buffer frame_size_max ≡ done true)
      × (read_type buffer ≡ done (some handshake_alpha))
unfolding write_handshake_alpha verify_handshake_alpha_size_and_crc
write_handshake_alpha-verified obj frame_size_max fits h =
    let lawful = handshake_alpha-IsLawful in
    let size = min frame_size_max 1472 in
    let body = lawful.encode obj in
    let frame = frame_of handshake_alpha body in
    let zeros : List ℕ = replicate (size - 11) 0 in
    let frame_len = length-frame_of lawful handshake_alpha obj in
    let total : length (frame ++ zeros) ≡ size =
      omega (arith, length-append frame zeros, length-replicate (size - 11) (let z : ℕ = 0 in z)) in
    (
      frame ++ zeros,
      boxed_lem lawful handshake_alpha size obj fits (omega arith),
      rw (slice_prefix frame zeros 11 (omega arith))
          (rw (total, ==-self size) (frame_of_accepted handshake_alpha body).1),
      read_type_lem handshake_alpha _ (omega (arith, length-append frame zeros)),
    )

-- A payload that is too short gives nothing; a body is read whatever is behind it.
module _ {A : Type 0} (F : SimpleFrame A) {Fits : A → Type 0} (lawful : IsLawful F.block Fits) where
  pub simple_read-short : (src : List ℕ) → length src < F.block.size → simple_read F src ≡ done none
  unfolding simple_read payload_reader payload_read block_serial
  simple_read-short src h =
      rw (slice_suffix [] src 0 refl) (rw (block_read_short lawful src h) refl)

  pub simple_read-encode :
      (obj : A) (rest : List ℕ)
      → Fits obj
      → simple_read F (lawful.encode obj ++ rest) ≡ done (some obj)
  unfolding simple_read payload_reader block-IsCodec
  simple_read-encode obj rest fits =
      rw (payload_read_back (block-IsCodec lawful) [] obj fits rest) refl
