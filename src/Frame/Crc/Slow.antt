-- ===== src/Frame/Crc/Slow.antt =====
-- About the table of frame/serial/crc.rs and the two versions of the checksum.
use redpine_rs.Common.{
  not, if◌then◌else◌, ℕ, zero, suc, ◌+◌, ◌*◌, ◌/◌, ◌%◌, ◌^◌, ◌<◌, ◌≡◌, refl, sym, ap, ap₂, ◌∙◌,
  arith, bit_xor, List, [], ◌∷◌, get_or, All, true, ◌==◌, ==→eq,
}
use native.Mathlib.Nat.{pow-suc}
use redpine_rs.Common.Word.{IsU32, IsByte, u8}
use redpine_rs.Common.Table.{holds_throughout, holds_throughout-lookup}
use redpine_rs.Common.Bits.{
  bit_xor-lt, bit_xor_comm, bit_xor_assoc, bit_xor-zero, bit_xor-div, bit_xor-mod, bit_xor-mod_two,
  bit_xor-div_two, bit_and-one, bit_xor-disjoint,
}
use redpine_rs.Frame.Crc.{
  partial_results, extend_byte, extend, complement, shift_bit, shift_bits, extend_slow_loop,
  extend_slow,
}
use redpine_rs.Frame.Crc.Bound.{extend_byte-IsU32}

bit_xor_middle :
    (a b c d : ℕ) → bit_xor (bit_xor a b) (bit_xor c d) ≡ bit_xor (bit_xor a c) (bit_xor b d)
bit_xor_middle a b c d =
    bit_xor_assoc a b (bit_xor c d)
    ∙ ap (bit_xor a)
        (sym (bit_xor_assoc b c d) ∙ ap (λ t. bit_xor t d) (bit_xor_comm b c) ∙ bit_xor_assoc c b d)
    ∙ sym (bit_xor_assoc a c (bit_xor b d))

-- What the lowest bit brings in.
abbrev feedback : ℕ → ℕ
feedback zero = 0
feedback (suc n) = 0x9960034C

bit_brings :
    (y d : ℕ) → d < 2 → (if not (d == 0) then bit_xor y 0x9960034C else y) ≡ bit_xor y (feedback d)
bit_brings y zero h = sym (bit_xor-zero y)
bit_brings y (suc zero) h = refl
bit_brings y (suc (suc d)) h = absurd (omega arith)

shift_bit_lem : (x : ℕ) → shift_bit x ≡ bit_xor (x / 2) (feedback (x % 2))
unfolding shift_bit
shift_bit_lem x = rw (bit_and-one x) (bit_brings (x / 2) (x % 2) (omega arith))

feedback-xor :
    (a b : ℕ) → a < 2 → b < 2 → feedback ((a + b) % 2) ≡ bit_xor (feedback a) (feedback b)
feedback-xor zero zero p q = refl
feedback-xor zero (suc zero) p q = refl
feedback-xor (suc zero) zero p q = refl
feedback-xor (suc zero) (suc zero) p q = refl
feedback-xor (suc (suc a)) b p q = absurd (omega arith)
feedback-xor zero (suc (suc b)) p q = absurd (omega arith)
feedback-xor (suc zero) (suc (suc b)) p q = absurd (omega arith)

-- Shifting is linear.
shift_bit-xor : (a b : ℕ) → shift_bit (bit_xor a b) ≡ bit_xor (shift_bit a) (shift_bit b)
shift_bit-xor a b =
    shift_bit_lem (bit_xor a b)
    ∙ ap₂ bit_xor (bit_xor-div_two a b) (
        ap feedback (bit_xor-mod_two a b ∙ omega arith)
        ∙ feedback-xor (a % 2) (b % 2) (omega arith) (omega arith))
    ∙ bit_xor_middle (a / 2) (b / 2) (feedback (a % 2)) (feedback (b % 2))
    ∙ sym (ap₂ bit_xor (shift_bit_lem a) (shift_bit_lem b))

shift_bits-xor :
    (n a b : ℕ) → shift_bits n (bit_xor a b) ≡ bit_xor (shift_bits n a) (shift_bits n b)
unfolding shift_bits
shift_bits-xor zero a b = refl
shift_bits-xor (suc n) a b =
    ap (shift_bits n) (shift_bit-xor a b) ∙ shift_bits-xor n (shift_bit a) (shift_bit b)

shift_bit-even : (x : ℕ) → shift_bit (x * 2) ≡ x
shift_bit-even x = shift_bit_lem (x * 2) ∙ ap₂ bit_xor half (ap feedback even) ∙ bit_xor-zero x
  where
    half : x * 2 / 2 ≡ x
    half = omega arith

    even : x * 2 % 2 ≡ 0
    even = omega arith

shift_bits-high : (n x : ℕ) → shift_bits n (x * 2 ^ n) ≡ x
unfolding shift_bits
shift_bits-high zero x = omega arith
shift_bits-high (suc n) x =
    ap (λ t. shift_bits n (shift_bit t)) last
    ∙ ap (shift_bits n) (shift_bit-even (x * 2 ^ n))
    ∙ shift_bits-high n x
  where
    last : x * 2 ^ suc n ≡ x * 2 ^ n * 2
    last = omega (arith, ap (λ (t : ℕ). x * t) (pow-suc 2 n))

-- Eight shifts take the low byte through the polynomial, and leave the rest as it is.
shift_eight : (x : ℕ) → shift_bits 8 x ≡ bit_xor (x / 256) (shift_bits 8 (x % 256))
shift_eight x =
    ap (shift_bits 8) (split ∙ sym (bit_xor-disjoint 8 (x / 256) (x % 256) (omega arith)))
    ∙ shift_bits-xor 8 (x / 256 * 256) (x % 256)
    ∙ ap (λ t. bit_xor t (shift_bits 8 (x % 256))) (shift_bits-high 8 (x / 256))
  where
    split : x ≡ x / 256 * 2 ^ 8 + x % 256
    split = omega arith

entry : ℕ → ℕ
unfolding shift_bits
entry i = bit_xor 0xFF000000 (shift_bits 8 (bit_xor i 0xFF))

table : holds_throughout (λ i. get_or partial_results i 0 == entry i) 256 ≡ true
unfolding holds_throughout partial_results entry
table = refl

partial_results-entry : (i : ℕ) → i < 256 → get_or partial_results i 0 ≡ entry i
partial_results-entry i h =
    ==→eq _ _ (holds_throughout-lookup (λ k. get_or partial_results k 0 == entry k) 256 i table h)

-- The complements before and after a byte are what the table has folded into its entries.
fold_complements :
    (c s : ℕ) → bit_xor (bit_xor c 0x00FFFFFF) s ≡ complement (bit_xor c (bit_xor 0xFF000000 s))
fold_complements c s =
    bit_xor_assoc c 0x00FFFFFF s
    ∙ ap (bit_xor c) (
        sym (
          bit_xor_assoc 0xFF000000 s 0xFFFFFFFF
          ∙ ap (bit_xor 0xFF000000) (bit_xor_comm s 0xFFFFFFFF)
          ∙ sym (bit_xor_assoc 0xFF000000 0xFFFFFFFF s)))
    ∙ sym (bit_xor_assoc c (bit_xor 0xFF000000 s) 0xFFFFFFFF)

high_bytes :
    (crc byte : ℕ)
    → IsByte byte
    → bit_xor (complement crc) byte / 256 ≡ bit_xor (crc / 256) 0x00FFFFFF
high_bytes crc byte h =
    bit_xor-div 8 (complement crc) byte
    ∙ ap₂ bit_xor (bit_xor-div 8 crc 0xFFFFFFFF) nothing
    ∙ bit_xor-zero (bit_xor (crc / 256) 0x00FFFFFF)
  where
    nothing : byte / 2 ^ 8 ≡ 0
    nothing = omega arith

low_byte :
    (crc byte : ℕ)
    → IsByte byte
    → bit_xor (complement crc) byte % 256 ≡ bit_xor (bit_xor (u8 crc) byte) 0xFF
low_byte crc byte h =
    bit_xor-mod 8 (complement crc) byte
    ∙ ap₂ bit_xor (bit_xor-mod 8 crc 0xFFFFFFFF) whole
    ∙ bit_xor_assoc (u8 crc) 0xFF byte
    ∙ ap (bit_xor (u8 crc)) (bit_xor_comm 0xFF byte)
    ∙ sym (bit_xor_assoc (u8 crc) byte 0xFF)
  where
    whole : byte % 2 ^ 8 ≡ byte
    whole = omega arith

-- One byte by the bit loop, on a register that holds the complement of the checksum.
slow_byte :
    (crc byte : ℕ)
    → IsByte byte
    → shift_bits 8 (bit_xor (complement crc) byte) ≡ complement (extend_byte crc byte)
unfolding extend_byte entry
slow_byte crc byte hb =
    shift_eight (bit_xor (complement crc) byte)
    ∙ ap₂ bit_xor (high_bytes crc byte hb) (ap (shift_bits 8) (low_byte crc byte hb))
    ∙ fold_complements (crc / 256) (shift_bits 8 (bit_xor index 0xFF))
    ∙ ap (λ t. complement (bit_xor (crc / 256) t)) (sym (partial_results-entry index in_table))
  where
    index : ℕ
    index = bit_xor (u8 crc) byte

    in_table : index < 256
    in_table = bit_xor-lt 8 (u8 crc) byte (omega arith) hb

slow_loop :
    (crc : ℕ) (bytes : List ℕ)
    → IsU32 crc
    → All IsByte bytes
    → extend_slow_loop (complement crc) bytes ≡ complement (extend crc bytes)
unfolding extend_slow_loop extend
slow_loop crc [] h hs = refl
slow_loop crc (b ∷ bs) h hs =
    ap (λ t. extend_slow_loop t bs) (slow_byte crc b hs.0)
    ∙ slow_loop (extend_byte crc b) bs (extend_byte-IsU32 crc b h) hs.1

complement-complement : (x : ℕ) → complement (complement x) ≡ x
complement-complement x = bit_xor_assoc x 0xFFFFFFFF 0xFFFFFFFF ∙ bit_xor-zero x

-- On every start value of 32 bits and every string of bytes, `extend` computes what `extend_slow`
-- does.
pub extend-eq-extend_slow :
    (crc : ℕ) (bytes : List ℕ)
    → IsU32 crc
    → All IsByte bytes
    → extend crc bytes ≡ extend_slow crc bytes
unfolding extend_slow
extend-eq-extend_slow crc bytes h hs =
    sym (ap complement (slow_loop crc bytes h hs) ∙ complement-complement (extend crc bytes))
