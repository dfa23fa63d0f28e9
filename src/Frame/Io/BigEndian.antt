-- ===== src/Frame/Io/BigEndian.antt =====
-- About the byte order of the raw reads and writes of frame/serial/mod.rs.
use redpine_rs.Common.{ℕ, ◌+◌, ◌*◌, ◌^◌, ◌<◌, ◌≡◌, ◌∙◌, arith, bit_or}
use native.Mathlib.Nat.{one-le-pow}
use native.Mathlib.Numerals.{towards_suc}
use redpine_rs.Common.Bits.{bit_or-disjoint}
use redpine_rs.Common.Word.{u8, IsU16, IsU32, IsU64, ◌<<◌, ◌>>>◌}
use redpine_rs.Frame.Io.{be_u32, be_u64}

-- One more byte below those already there.
or_byte : (k x y : ℕ) → y < 256 → bit_or (x << (k + 8)) (y << k) ≡ (x * 256 + y) << k
or_byte k x y h =
    bit_or-disjoint (k + 8) x (y << k) (rw (shift_eight k) (grind (arith, one-le-pow k 2)))
    ∙ rw (shift_eight k) (omega arith)
  where
    shift_eight : (k : ℕ) → 2 ^ (k + 8) ≡ 256 * 2 ^ k
    shift_eight k = simp towards_suc (omega arith)

or_last : (x y : ℕ) → y < 256 → bit_or (x << 8) y ≡ x * 256 + y
or_last x y h = bit_or-disjoint 8 x y h

pub be_u32-sum :
    (a b c d : ℕ)
    → b < 256
    → c < 256
    → d < 256
    → be_u32 a b c d ≡ a * 2 ^ 24 + b * 2 ^ 16 + c * 2 ^ 8 + d
unfolding be_u32
be_u32-sum a b c d hb hc hd =
    rw (or_byte 16 a b hb)
      (rw (or_byte 8 (a * 256 + b) c hc) (or_last ((a * 256 + b) * 256 + c) d hd ∙ omega arith))

pub be_u32-be_bytes :
    (v : ℕ) → IsU32 v → be_u32 (u8 (v >>> 24)) (u8 (v >>> 16)) (u8 (v >>> 8)) (u8 v) ≡ v
be_u32-be_bytes v h = be_u32-sum _ _ _ _ (omega arith) (omega arith) (omega arith) ∙ omega arith

pub be_u64-sum :
    (a b c d e f g h : ℕ)
    → b < 256
    → c < 256
    → d < 256
    → e < 256
    → f < 256
    → g < 256
    → h < 256
    → be_u64 a b c d e f g h
      ≡ ((((((a * 256 + b) * 256 + c) * 256 + d) * 256 + e) * 256 + f) * 256 + g) * 256 + h
unfolding be_u64
be_u64-sum a b c d e f g h hb hc hd he hf hg hh =
    let x1 = a * 256 + b in
    let x2 = x1 * 256 + c in
    let x3 = x2 * 256 + d in
    let x4 = x3 * 256 + e in
    let x5 = x4 * 256 + f in
    rw (or_byte 48 a b hb) (
      rw (or_byte 40 x1 c hc) (
        rw (or_byte 32 x2 d hd) (
          rw (or_byte 24 x3 e he)
            (rw (or_byte 16 x4 f hf) (rw (or_byte 8 x5 g hg) (or_last (x5 * 256 + g) h hh))))))

pub be_u64-be_bytes :
    (v : ℕ)
    → IsU64 v
    → be_u64
        (u8 (v >>> 56))
        (u8 (v >>> 48))
        (u8 (v >>> 40))
        (u8 (v >>> 32))
        (u8 (v >>> 24))
        (u8 (v >>> 16))
        (u8 (v >>> 8))
        (u8 v)
      ≡ v
be_u64-be_bytes v h =
    be_u64-sum _ _ _ _ _ _ _ _ (omega arith) (omega arith) (omega arith) (omega arith) (omega arith)
      (omega arith) (omega arith)
    ∙ omega arith

-- `read_u16` puts two bytes together.
pub be_u16-be_bytes : (v : ℕ) → IsU16 v → bit_or (u8 (v >>> 8) << 8) (u8 v) ≡ v
be_u16-be_bytes v h = or_last (u8 (v >>> 8)) (u8 v) (omega arith) ∙ omega arith
