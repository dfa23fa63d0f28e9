-- ===== src/Frame/Io.antt =====
-- `Reader` and `Writer` of frame/serial/mod.rs: a raw pointer walked over a buffer. An access past
-- the end of the buffer is `undefined`.
pub mod BigEndian
pub mod Laws
use redpine_rs.Common.{
  ℕ, ◌+◌, ◌*◌, ◌/◌, ◌^◌, bit_or, List, [], ◌∷◌, ◌++◌, length, Run, done, undefined, ◌>>=◌,
}
use redpine_rs.Common.Word.{u8, ◌<<◌, ◌>>>◌}

-- `ptr` is what lies from the pointer on.
pub record Reader : Type 0 where
  pub ptr : List ℕ
  pub bytes_read : ℕ

-- `Reader::new`
unfoldable pub reader : List ℕ → Reader
reader buffer = record { ptr = buffer; bytes_read = 0 }

unfoldable pub read_u8 : Reader → Run (ℕ × Reader)
read_u8 rd = elim rd.ptr [
  | b0 ∷ rest ↦ done (b0, record { ptr = rest; bytes_read = rd.bytes_read + 1 })
  | _ ↦ undefined
]

-- `value |= (*ptr as u16) << 8; value |= *ptr.offset(1) as u16;`
unfoldable pub read_u16 : Reader → Run (ℕ × Reader)
read_u16 rd = elim rd.ptr [
  | b0 ∷ b1 ∷ rest ↦
      done (bit_or (b0 << 8) b1, record { ptr = rest; bytes_read = rd.bytes_read + 2 })
  | _ ↦ undefined
]

-- the four bytes at `ptr` as a big-endian number, and the eight
unfoldable pub be_u32 : ℕ → ℕ → ℕ → ℕ → ℕ
be_u32 b0 b1 b2 b3 = bit_or (bit_or (bit_or (b0 << 24) (b1 << 16)) (b2 << 8)) b3

unfoldable pub read_u32 : Reader → Run (ℕ × Reader)
read_u32 rd = elim rd.ptr [
  | b0 ∷ b1 ∷ b2 ∷ b3 ∷ rest ↦
      done (be_u32 b0 b1 b2 b3, record { ptr = rest; bytes_read = rd.bytes_read + 4 })
  | _ ↦ undefined
]

unfoldable pub be_u64 : ℕ → ℕ → ℕ → ℕ → ℕ → ℕ → ℕ → ℕ → ℕ
be_u64 b0 b1 b2 b3 b4 b5 b6 b7 =
    let v3 = bit_or (bit_or (bit_or (b0 << 56) (b1 << 48)) (b2 << 40)) (b3 << 32) in
    bit_or (bit_or (bit_or (bit_or v3 (b4 << 24)) (b5 << 16)) (b6 << 8)) b7

unfoldable pub read_u64 : Reader → Run (ℕ × Reader)
read_u64 rd = elim rd.ptr [
  | b0 ∷ b1 ∷ b2 ∷ b3 ∷ b4 ∷ b5 ∷ b6 ∷ b7 ∷ rest ↦
      done (be_u64 b0 b1 b2 b3 b4 b5 b6 b7, record { ptr = rest; bytes_read = rd.bytes_read + 8 })
  | _ ↦ undefined
]

-- The buffer is `behind ++ ahead`, with the pointer between them.
pub record Writer : Type 0 where
  pub behind : List ℕ
  pub ahead : List ℕ
  pub bytes_written : ℕ

-- `Writer::new`
unfoldable pub writer : List ℕ → Writer
writer buffer = record { behind = []; ahead = buffer; bytes_written = 0 }

-- Stores at `ptr`, `ptr.offset(1)` and so on, and the pointer moved past them.
unfoldable pub store : List ℕ → List ℕ → List ℕ → Run (List ℕ × List ℕ)
store [] behind ahead = done (behind, ahead)
store (b ∷ bs) behind [] = undefined
store (b ∷ bs) behind (a ∷ ahead) = store bs (behind ++ (b ∷ [])) ahead

-- `write_slice`: `copy_nonoverlapping`, then the pointer and the count go on by `bytes.len()`.
unfoldable pub write_slice : List ℕ → Writer → Run Writer
write_slice bytes wr = do
  (behind, ahead) ← store bytes wr.behind wr.ahead
  done (record { behind = behind; ahead = ahead; bytes_written = wr.bytes_written + length bytes })

unfoldable pub write_u8 : ℕ → Writer → Run Writer
write_u8 value = write_slice (value ∷ [])

unfoldable pub be_bytes_u16 : ℕ → List ℕ
be_bytes_u16 value = u8 (value >>> 8) ∷ u8 value ∷ []

unfoldable pub write_u16 : ℕ → Writer → Run Writer
write_u16 value = write_slice (be_bytes_u16 value)

unfoldable pub be_bytes_u32 : ℕ → List ℕ
be_bytes_u32 value = u8 (value >>> 24) ∷ u8 (value >>> 16) ∷ u8 (value >>> 8) ∷ u8 value ∷ []

unfoldable pub write_u32 : ℕ → Writer → Run Writer
write_u32 value = write_slice (be_bytes_u32 value)

unfoldable pub be_bytes_u64 : ℕ → List ℕ
be_bytes_u64 value =
    u8 (value >>> 56)
    ∷ u8 (value >>> 48)
    ∷ u8 (value >>> 40)
    ∷ u8 (value >>> 32)
    ∷ u8 (value >>> 24)
    ∷ u8 (value >>> 16)
    ∷ u8 (value >>> 8)
    ∷ u8 value
    ∷ []

unfoldable pub write_u64 : ℕ → Writer → Run Writer
write_u64 value = write_slice (be_bytes_u64 value)
