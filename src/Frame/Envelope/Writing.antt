-- ===== src/Frame/Envelope/Writing.antt =====
-- About `FrameWriter` of frame/serial/mod.rs: what is in the buffer after each call.
use redpine_rs.Common.{
  ℕ, ◌+◌, ◌-◌, ◌≤◌, ◌<◌, ◌≡◌, refl, sym, ap, ap₂, ◌∙◌, arith, true, false, List, [], ◌∷◌, ◌++◌,
  append_assoc, length, take, drop, length-append, take-append, drop-append, drop-append_add,
  drop-take-append, length-take, done, le→leb,
}
use redpine_rs.Frame.{FrameType}
use redpine_rs.Frame.Io.{writer}
use redpine_rs.Frame.Io.Laws.{wrote, write_u8_lem}
use redpine_rs.Frame.Crc.{compute}
use redpine_rs.Frame.Block.{Serial}
use redpine_rs.Frame.Codec.{IsCodec}
use redpine_rs.Frame.Envelope.{
  slice, checked_sub, type_bits, FrameWriter, frame_writer, frame_write, to_le_bytes, finalize,
}

pub slice_lem :
    (l : List ℕ) (b e : ℕ) → b ≤ e → e ≤ length l → slice l b e ≡ done (take (e - b) (drop b l))
slice_lem l b e h k = rw (le→leb b e h, le→leb e (length l) k)

pub slice_prefix : (xs ys : List ℕ) (e : ℕ) → e ≡ length xs → slice (xs ++ ys) 0 e ≡ done xs
slice_prefix xs ys e same =
    slice_lem (xs ++ ys) 0 e (omega arith) (omega (arith, length-append xs ys))
    ∙ ap done (take-append (e - 0) xs ys (omega arith))

-- A writer that has written `content`, with `tail` after it in the buffer.
abbrev pub holding : List ℕ → List ℕ → FrameWriter
holding content tail = record { buffer = content ++ tail; write_idx = length content }

pub frame_writer_lem :
    (buffer : List ℕ) (t : FrameType)
    → 5 ≤ length buffer
    → frame_writer buffer t ≡ done (holding (type_bits t ∷ []) (drop 1 buffer))
unfolding frame_writer wrote writer
frame_writer_lem buffer t h =
    rw (le→leb 5 (length buffer) h, write_u8_lem (type_bits t) (writer buffer) (omega arith))

module _ (content tail : List ℕ) (room : 4 ≤ length tail) where
  abbrev end : ℕ
  end = length (content ++ tail) - 4

  end_lem : checked_sub (length (content ++ tail)) 4 ≡ done end
  end_lem = rw (le→leb 4 (length (content ++ tail)) (omega (arith, length-append content tail)))

  room_lem : slice (content ++ tail) (length content) end ≡ done (take (length tail - 4) tail)
  room_lem =
      slice_lem (content ++ tail) (length content) end (omega (arith, length-append content tail))
        (omega arith)
      ∙ ap done (
          rw (drop-append (length content) content tail refl)
            (ap (λ k. take k tail) (omega (arith, length-append content tail))))

  crc_room_lem : drop end (content ++ tail) ≡ drop (length tail - 4) tail
  crc_room_lem =
      ap (λ k. drop k (content ++ tail))
        (let e : end ≡ length content + (length tail - 4) =
            omega (arith, length-append content tail) in
          e)
      ∙ drop-append_add content tail (length tail - 4)

  module _ {A : Type 0} {S : Serial A} {Fits : A → Type 0} (codec : IsCodec S Fits) (a : A)
      (fits : Fits a) where
    pub frame_write_fits :
        length (codec.encode a) + 4 ≤ length tail
        → frame_write S a (holding content tail)
          ≡ done (true, holding (content ++ codec.encode a) (drop (length (codec.encode a)) tail))
    unfolding frame_write
    frame_write_fits h =
        rw (end_lem, room_lem)
          (rw
            (codec.write_fits a fits (take (length tail - 4) tail)
              (omega (arith, length-take (length tail - 4) tail)))
            (ap₂ (λ b i. done (true, record { buffer = b; write_idx = i })) written
              (sym (length-append content enc))))
      where
        enc : List ℕ
        enc = codec.encode a

        written :
            take (length content) (content ++ tail)
              ++ ((enc ++ drop (length enc) (take (length tail - 4) tail))
                  ++ drop end (content ++ tail))
            ≡ (content ++ enc) ++ drop (length enc) tail
        written = rw (
          take-append (length content) content tail refl,
          crc_room_lem,
          append_assoc enc (drop (length enc) (take (length tail - 4) tail))
              (drop (length tail - 4) tail),
          drop-take-append (length enc) (length tail - 4) tail (omega arith),
          append_assoc content enc (drop (length enc) tail),
        )

    pub frame_write_full :
        length tail < length (codec.encode a) + 4
        → frame_write S a (holding content tail) ≡ done (false, holding content tail)
    unfolding frame_write
    frame_write_full h =
        rw (end_lem, room_lem)
          (rw (
            codec.write_short a fits (take (length tail - 4) tail)
              (omega (arith, length-take (length tail - 4) tail))))

  pub finalize_lem :
      finalize (holding content tail)
      ≡ done (
        content ++ to_le_bytes (compute content),
        content ++ (to_le_bytes (compute content) ++ drop 4 tail),
      )
  unfolding finalize
  finalize_lem =
      rw
        (
          slice_prefix content tail (length content) refl,
          slice_lem (content ++ tail) (length content) (length content + 4) (omega arith)
              (omega (arith, length-append content tail)),
          take-append (length content) content tail refl,
          drop-append_add content tail 4,
        )
        (rw (← append_assoc content (to_le_bytes (compute content)) (drop 4 tail)) (
          rw (
            slice_prefix (content ++ to_le_bytes (compute content)) (drop 4 tail)
              (length content + 4)
              (omega (arith, length-append content (to_le_bytes (compute content)))))))
