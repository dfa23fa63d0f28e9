-- ===== src/Frame/Block/Lawful.antt =====
-- What a `BlockSerial` implementation of frame/serial/mod.rs owes, and what its `Serial` methods then
-- do.
use redpine_rs.Common.{
  ℕ, ◌+◌, ◌≤◌, ◌<◌, ◌≡◌, arith, none, some, List, ◌++◌, length, drop, length-append, done,
  le→ltb_false, lt→ltb,
}
use redpine_rs.Frame.Io.{Reader, reader, Writer, writer}
use redpine_rs.Frame.Io.Laws.{advance, wrote}
use redpine_rs.Frame.Block.{BlockSerial, block_read, block_write}

-- `encode` is what an implementation writes; `Fits` says which values its fields can hold.
pub record IsLawful {A : Type 0} (T : BlockSerial A) (Fits : A → Type 0) : Type 0 where
  pub encode : A → List ℕ
  pub length-encode : (a : A) → length (encode a) ≡ T.size
  pub write_encodes :
      (a : A) (wr : Writer) → T.size ≤ length wr.ahead → T.write wr a ≡ done (wrote (encode a) wr)
  pub read_decodes :
      (a : A)
      → Fits a
      → (rest : List ℕ) (n : ℕ)
      → T.read (record { ptr = encode a ++ rest; bytes_read = n })
        ≡ done (a, record { ptr = rest; bytes_read = n + T.size })
  pub read_total :
      (rd : Reader) → T.size ≤ length rd.ptr → (a : A) × (T.read rd ≡ done (a, advance T.size rd))

module _ {A : Type 0} {T : BlockSerial A} {Fits : A → Type 0} (lawful : IsLawful T Fits) where
  open lawful use {encode, length-encode, write_encodes, read_decodes, read_total}

  -- A read takes `SIZE` bytes or, if there are fewer, gives `None`: it never leaves the buffer.
  pub block_read_total :
      (buffer : List ℕ)
      → T.size ≤ length buffer
      → (a : A) × (block_read T buffer ≡ done (some (a, T.size)))
  unfolding block_read reader advance
  block_read_total buffer h =
      let (a, e) = read_total (reader buffer) h in (a, rw (le→ltb_false _ _ h, e) (ground arith))

  pub block_read_short :
      (buffer : List ℕ) → length buffer < T.size → block_read T buffer ≡ done none
  unfolding block_read
  block_read_short buffer h = rw (lt→ltb _ _ h)

  pub block_write_short :
      (buffer : List ℕ) (a : A) → length buffer < T.size → block_write T buffer a ≡ done none
  unfolding block_write
  block_write_short buffer a h = rw (lt→ltb _ _ h)

  -- A write replaces the first `SIZE` bytes of the buffer by the encoding.
  pub block_write_encodes :
      (buffer : List ℕ) (a : A)
      → T.size ≤ length buffer
      → block_write T buffer a ≡ done (some (encode a ++ drop T.size buffer, T.size))
  unfolding block_write writer wrote
  block_write_encodes buffer a h =
      rw (le→ltb_false _ _ h, write_encodes a (writer buffer) h)
        (rw (length-encode a) (ground arith))

  pub block_read_decodes :
      (a : A) → Fits a → (rest : List ℕ) → block_read T (encode a ++ rest) ≡ done (some (a, T.size))
  unfolding block_read reader
  block_read_decodes a fits rest =
      let enough : T.size ≤ length (encode a ++ rest) =
        omega (arith, length-append (encode a) rest, length-encode a) in
      rw (le→ltb_false _ _ enough, read_decodes a fits rest 0) (ground arith)
