-- ===== src/Frame/Crc/Bound.antt =====
-- About the range of the checksum of frame/serial/crc.rs.
use redpine_rs.Common.{
  ℕ, zero, suc, ◌^◌, ◌≡◌, refl, arith, bit_xor, List, [], ◌∷◌, get_or, Bool, true, ◌&&◌, ltb,
}
use redpine_rs.Common.Word.{IsU32, u8}
use redpine_rs.Common.Bits.{bit_xor-lt}
use redpine_rs.Frame.Crc.{partial_results, extend_byte, extend, compute}

all_words : List ℕ → Bool
all_words [] = true
all_words (x ∷ xs) = ltb x (2 ^ 32) && all_words xs

get_or-IsU32 : (xs : List ℕ) (i : ℕ) → all_words xs ≡ true → IsU32 (get_or xs i 0)
unfolding all_words
get_or-IsU32 [] i h = omega arith
get_or-IsU32 (x ∷ xs) zero h = ground arith
get_or-IsU32 (x ∷ xs) (suc i) h = get_or-IsU32 xs i (ground arith)

pub partial_results-IsU32 : (i : ℕ) → IsU32 (get_or partial_results i 0)
partial_results-IsU32 i = get_or-IsU32 partial_results i words
  where
    words : all_words partial_results ≡ true
    words = unfold all_words partial_results in refl

pub extend_byte-IsU32 : (crc byte : ℕ) → IsU32 crc → IsU32 (extend_byte crc byte)
unfolding extend_byte
extend_byte-IsU32 crc byte h =
    bit_xor-lt 32 _ _ (omega arith) (partial_results-IsU32 (bit_xor (u8 crc) byte))

extend-IsU32 : (crc : ℕ) (bytes : List ℕ) → IsU32 crc → IsU32 (extend crc bytes)
unfolding extend
extend-IsU32 crc [] h = h
extend-IsU32 crc (b ∷ bs) h = extend-IsU32 (extend_byte crc b) bs (extend_byte-IsU32 crc b h)

pub compute-IsU32 : (bytes : List ℕ) → IsU32 (compute bytes)
unfolding compute
compute-IsU32 bytes = extend-IsU32 0 bytes (omega arith)
