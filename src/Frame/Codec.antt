-- ===== src/Frame/Codec.antt =====
-- What a `Serial` implementation promises to the frame writer and the payload reader.
use redpine_rs.Common.{ℕ, ◌≤◌, ◌<◌, ◌≡◌, none, some, List, ◌++◌, length, drop, done, arith}
use redpine_rs.Frame.Block.{BlockSerial, Serial, block_serial}
use redpine_rs.Frame.Block.Lawful.{
  IsLawful, block_write_encodes, block_write_short, block_read_decodes,
}

pub record IsCodec {A : Type 0} (S : Serial A) (Fits : A → Type 0) : Type 0 where
  pub encode : A → List ℕ
  pub write_fits :
      (a : A)
      → Fits a
      → (buffer : List ℕ) → length (encode a) ≤ length buffer
      → S.write buffer a
        ≡ done (some (encode a ++ drop (length (encode a)) buffer, length (encode a)))
  pub write_short :
      (a : A)
      → Fits a
      → (buffer : List ℕ) → length buffer < length (encode a)
      → S.write buffer a ≡ done none
  pub read_back :
      (a : A)
      → Fits a
      → (rest : List ℕ) → S.read (encode a ++ rest) ≡ done (some (a, length (encode a)))

module _ {A : Type 0} {T : BlockSerial A} {Fits : A → Type 0} (lawful : IsLawful T Fits) where
  open lawful use {encode, length-encode}

  block_fits :
      (a : A)
      → Fits a
      → (buffer : List ℕ) → length (encode a) ≤ length buffer
      → (block_serial T).write buffer a
        ≡ done (some (encode a ++ drop (length (encode a)) buffer, length (encode a)))
  unfolding block_serial
  block_fits a f buffer h =
      rw (length-encode a) (block_write_encodes lawful buffer a (omega (arith, length-encode a)))

  block_short :
      (a : A)
      → Fits a
      → (buffer : List ℕ) → length buffer < length (encode a)
      → (block_serial T).write buffer a ≡ done none
  unfolding block_serial
  block_short a f buffer h = block_write_short lawful buffer a (omega (arith, length-encode a))

  block_back :
      (a : A)
      → Fits a
      → (rest : List ℕ)
      → (block_serial T).read (encode a ++ rest) ≡ done (some (a, length (encode a)))
  unfolding block_serial
  block_back a f rest = rw (length-encode a) (block_read_decodes lawful a f rest)

  unfoldable pub block-IsCodec : IsCodec (block_serial T) Fits
  unfolding block_fits block_short block_back
  block-IsCodec = record {
    encode = encode;
    write_fits = block_fits;
    write_short = block_short;
    read_back = block_back;
  }
