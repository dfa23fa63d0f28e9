-- ===== src/Frame/Envelope/Carries.antt =====
-- About the simple frames of frame/serial/mod.rs: what a receiver finds in one that was written.
use redpine_rs.Common.{
  ◌-◌, ℕ, ◌+◌, ◌≤◌, ◌≡◌, ◌∙◌, ap, true, some, List, ◌++◌, append-nil, arith, done, length,
  replicate,
}
use redpine_rs.Frame.Block.Lawful.{IsLawful}
use redpine_rs.Frame.Envelope.{
  SimpleFrame, frame_size, simple_write, write_boxed, verify_minimum_size, verify_crc, read_type,
  payload, simple_read,
}
use redpine_rs.Frame.Envelope.Reading.{frame_of, frame_of_accepted}
use redpine_rs.Frame.Envelope.Simple.{
  simple_write_lem, simple_read_back, write_boxed_lem, length-frame_of,
}

-- The bytes pass the receiver's checks, have the type of the frame, and read as the value.
pub record Carries {A : Type 0} (F : SimpleFrame A) (obj : A) (frame : List ℕ) : Type 0 where
  pub minimum_size : verify_minimum_size frame ≡ true
  pub crc : verify_crc frame ≡ done true
  pub type : read_type frame ≡ done (some F.frame_type)
  pub body : List ℕ
  pub paid : payload frame ≡ done body
  pub reads : simple_read F body ≡ done (some obj)
  pub length_lem : length frame ≡ F.block.size + 5

module _ {A : Type 0} (F : SimpleFrame A) {Fits : A → Type 0} (lawful : IsLawful F.block Fits) where
  frame_of-Carries :
      (obj : A) → Fits obj → Carries F obj (frame_of F.frame_type (lawful.encode obj))
  frame_of-Carries obj fits =
      let (size, crc, type, paid) = frame_of_accepted F.frame_type (lawful.encode obj) in
      record {
        minimum_size = size;
        crc = crc;
        type = type;
        body = lawful.encode obj;
        paid = paid;
        reads = simple_read_back F lawful obj fits;
        length_lem = length-frame_of lawful F.frame_type obj;
      }

  pub simple_write-Carries :
      (obj : A) (dst : List ℕ)
      → Fits obj
      → F.block.size ≤ F.payload_size
      → frame_size F ≤ length dst
      → (frame : List ℕ) × (simple_write F obj dst ≡ done frame) × Carries F obj frame
  simple_write-Carries obj dst fits h room = (
    frame_of F.frame_type (lawful.encode obj),
    simple_write_lem F lawful obj dst fits h room,
    frame_of-Carries obj fits,
  )

  pub write_boxed-Carries :
      (obj : A)
      → Fits obj
      → F.payload_size ≡ F.block.size
      → (frame : List ℕ) × (write_boxed F obj ≡ done frame) × Carries F obj frame
  write_boxed-Carries obj fits e =
      let frame = frame_of F.frame_type (lawful.encode obj) in
      let none_left : F.payload_size - F.block.size ≡ 0 = omega arith in
      (
        frame,
        write_boxed_lem F lawful obj fits (omega arith)
            ∙ ap (λ k. done (frame ++ replicate {A = ℕ} k 0)) none_left
            ∙ ap done (append-nil frame),
        frame_of-Carries obj fits,
      )
