-- ===== src/Common/Bits.antt =====
-- Laws of the native bit operations at variables, from the recursion on binary digits that they
-- stand for.
use Prim.Native.Nat.{
  ℕ, zero, suc, ◌+◌, ◌*◌, ◌/◌, ◌%◌, ◌^◌, ◌≤◌, ◌<◌, min, max, digits, bitwise, bit_and, bit_or,
  bit_xor, differ, bit_and-bitwise, bit_or-bitwise, bit_xor-bitwise,
}
use mathlib.Core.Path.{◌≡◌, refl, sym, ap, ap₂, ◌∙◌}
use mathlib.Core.Logic.{◌⊎◌, inl, inr}
use native.Mathlib.Nat.{
  le_refl, pow-suc, div-div-eq-div-mul, mod-eq-sub-div-mul, div-mul-le_self, div-one, mod-one,
}
use native.Mathlib.Omega.{arith}

-- Digits cost one unit of fuel each, and more fuel than the number needs changes nothing.
module _ (rest : ℕ → ℕ) (op : ℕ → ℕ → ℕ) where
  one_more : (fuel x y : ℕ) → x ≤ fuel → digits rest op (suc fuel) x y ≡ digits rest op fuel x y
  one_more zero (suc x) y h = absurd (omega arith)
  one_more zero zero y h = refl
  one_more (suc fuel) zero y h = refl
  one_more (suc fuel) (suc x) y h = rw (one_more fuel (suc x / 2) (y / 2) (omega arith))

  at_last : (fuel x : ℕ) → x ≤ suc fuel → (x ≤ fuel) ⊎ (x ≡ suc fuel)
  at_last fuel x h = ground arith

  enough_fuel : (fuel x y : ℕ) → x ≤ fuel → digits rest op fuel x y ≡ bitwise rest op x y
  enough_fuel zero (suc x) y h = absurd (omega arith)
  enough_fuel zero zero y h = refl
  enough_fuel (suc fuel) x y h = elim (at_last fuel x h) [
    | inl less ↦ one_more fuel x y less ∙ enough_fuel fuel x y less
    | inr all ↦ rw all refl
  ]

  low_digit :
      (x y : ℕ)
      → bitwise rest op (suc x) y ≡ op (suc x % 2) (y % 2) + 2 * bitwise rest op (suc x / 2) (y / 2)
  low_digit x y = let e = enough_fuel x (suc x / 2) (y / 2) (omega arith) in omega arith

pub bit_and_step : (x y : ℕ) → bit_and x y ≡ bit_and (x / 2) (y / 2) * 2 + min (x % 2) (y % 2)
bit_and_step (suc x) y = simp bit_and-bitwise (let e = low_digit (λ _. 0) min x y in omega arith)
bit_and_step zero y = simp bit_and-bitwise (omega arith)

pub bit_or_step : (x y : ℕ) → bit_or x y ≡ bit_or (x / 2) (y / 2) * 2 + max (x % 2) (y % 2)
bit_or_step (suc x) y = simp bit_or-bitwise (let e = low_digit (λ d. d) max x y in omega arith)
bit_or_step zero y = simp bit_or-bitwise (omega arith)

differ_digits : (x y : ℕ) → x < 2 → y < 2 → differ x y ≡ (x + y) % 2
differ_digits zero y h k = omega arith
differ_digits (suc zero) zero h k = omega arith
differ_digits (suc zero) (suc zero) h k = omega arith
differ_digits (suc zero) (suc (suc y)) h k = absurd (omega arith)
differ_digits (suc (suc x)) y h k = absurd (omega arith)

pub bit_xor_step : (a b : ℕ) → bit_xor a b ≡ bit_xor (a / 2) (b / 2) * 2 + (a + b) % 2
bit_xor_step zero b = simp bit_xor-bitwise (omega arith)
bit_xor_step (suc a) b = simp bit_xor-bitwise (
    omega (
      arith,
      low_digit (λ d. d) differ a b,
      differ_digits (suc a % 2) (b % 2) (omega arith) (omega arith),
    ))

-- The lowest digit and the rest of an exclusive or.
pub bit_xor-mod_two : (a b : ℕ) → bit_xor a b % 2 ≡ (a + b) % 2
bit_xor-mod_two a b = omega (arith, bit_xor_step a b)

pub bit_xor-div_two : (a b : ℕ) → bit_xor a b / 2 ≡ bit_xor (a / 2) (b / 2)
bit_xor-div_two a b = omega (arith, bit_xor_step a b)

bit_xor_comm_fuel : (n a b : ℕ) → a ≤ n → b ≤ n → bit_xor a b ≡ bit_xor b a
bit_xor_comm_fuel zero zero zero p q = refl
bit_xor_comm_fuel zero zero (suc b) p q = absurd (omega arith)
bit_xor_comm_fuel zero (suc a) b p q = absurd (omega arith)
bit_xor_comm_fuel (suc n) a b p q = omega (
  arith,
  bit_xor_step a b,
  bit_xor_step b a,
  bit_xor_comm_fuel n (a / 2) (b / 2) (omega arith) (omega arith),
)

pub bit_xor_comm : (a b : ℕ) → bit_xor a b ≡ bit_xor b a
bit_xor_comm a b = bit_xor_comm_fuel (a + b) a b (omega arith) (omega arith)

bit_xor_assoc_fuel :
    (n a b c : ℕ) → a ≤ n → b ≤ n → c ≤ n → bit_xor (bit_xor a b) c ≡ bit_xor a (bit_xor b c)
bit_xor_assoc_fuel zero zero zero zero p q r = refl
bit_xor_assoc_fuel zero zero zero (suc c) p q r = absurd (omega arith)
bit_xor_assoc_fuel zero zero (suc b) c p q r = absurd (omega arith)
bit_xor_assoc_fuel zero (suc a) b c p q r = absurd (omega arith)
bit_xor_assoc_fuel (suc n) a b c p q r =
    bit_xor_step (bit_xor a b) c
    ∙ rw (bit_xor-div_two a b) (
        rw (bit_xor_assoc_fuel n (a / 2) (b / 2) (c / 2) (omega arith) (omega arith) (omega arith))
          (rw (← bit_xor-div_two b c) (
            omega (arith, bit_xor_step a (bit_xor b c), bit_xor-mod_two a b, bit_xor-mod_two b c))))

pub bit_xor_assoc : (a b c : ℕ) → bit_xor (bit_xor a b) c ≡ bit_xor a (bit_xor b c)
bit_xor_assoc a b c = bit_xor_assoc_fuel (a + b + c) a b c (omega arith) (omega arith) (omega arith)

bit_xor_self_fuel : (n a : ℕ) → a ≤ n → bit_xor a a ≡ 0
bit_xor_self_fuel zero zero p = refl
bit_xor_self_fuel zero (suc a) p = absurd (omega arith)
bit_xor_self_fuel (suc n) a p =
    omega (arith, bit_xor_step a a, bit_xor_self_fuel n (a / 2) (omega arith))

pub bit_xor_self : (a : ℕ) → bit_xor a a ≡ 0
bit_xor_self a = bit_xor_self_fuel a a (le_refl a)

pub zero-bit_xor : (b : ℕ) → bit_xor 0 b ≡ b
zero-bit_xor b = bit_xor-bitwise 0 b

pub bit_xor-zero : (a : ℕ) → bit_xor a 0 ≡ a
bit_xor-zero a = bit_xor_comm a 0 ∙ zero-bit_xor a

zero-bit_or : (b : ℕ) → bit_or 0 b ≡ b
zero-bit_or b = bit_or-bitwise 0 b

bit_or-zero_fuel : (n a : ℕ) → a ≤ n → bit_or a 0 ≡ a
bit_or-zero_fuel zero zero p = refl
bit_or-zero_fuel zero (suc a) p = absurd (omega arith)
bit_or-zero_fuel (suc n) a p =
    omega (arith, bit_or_step a 0, bit_or-zero_fuel n (a / 2) (omega arith))

pub bit_or-zero : (a : ℕ) → bit_or a 0 ≡ a
bit_or-zero a = bit_or-zero_fuel a a (le_refl a)

-- Two words of which one has zeros below bit `k` and the other nothing from there on: `|` adds.
mul-pow_suc : (q k : ℕ) → q * 2 ^ suc k ≡ 2 * (q * 2 ^ k)
mul-pow_suc q k = omega (arith, ap (λ (t : ℕ). q * t) (pow-suc 2 k))

pub bit_or-disjoint : (k q r : ℕ) → r < 2 ^ k → bit_or (q * 2 ^ k) r ≡ q * 2 ^ k + r
bit_or-disjoint zero q r h = ground (arith, bit_or-zero q)
bit_or-disjoint (suc k) q r h = ground (
  arith,
  mul-pow_suc q k,
  pow-suc 2 k,
  bit_or_step (q * 2 ^ suc k) r,
  bit_or-disjoint k q (r / 2) (omega (arith, pow-suc 2 k)),
)

pub bit_xor-disjoint : (k q r : ℕ) → r < 2 ^ k → bit_xor (q * 2 ^ k) r ≡ q * 2 ^ k + r
bit_xor-disjoint zero q zero h = ground (arith, bit_xor-zero q)
bit_xor-disjoint zero q (suc r) h = absurd (omega arith)
bit_xor-disjoint (suc k) q r h = ground (
  arith,
  mul-pow_suc q k,
  pow-suc 2 k,
  bit_xor_step (q * 2 ^ suc k) r,
  bit_xor-disjoint k q (r / 2) (omega (arith, pow-suc 2 k)),
)

bit_and-zero_fuel : (n a : ℕ) → a ≤ n → bit_and a 0 ≡ 0
bit_and-zero_fuel zero zero p = refl
bit_and-zero_fuel zero (suc a) p = absurd (omega arith)
bit_and-zero_fuel (suc n) a p =
    omega (arith, bit_and_step a 0, bit_and-zero_fuel n (a / 2) (omega arith))

bit_and-zero : (a : ℕ) → bit_and a 0 ≡ 0
bit_and-zero a = bit_and-zero_fuel a a (le_refl a)

div-pow_suc : (x k : ℕ) → x / 2 ^ suc k ≡ x / 2 / 2 ^ k
div-pow_suc x k =
    ap (λ t. x / t) (let e : 2 ^ suc k ≡ 2 * 2 ^ k = omega (arith, pow-suc 2 k) in e)
    ∙ sym (div-div-eq-div-mul x 2 (2 ^ k))

mod-pow_suc : (x k : ℕ) → x % 2 ^ suc k ≡ x / 2 % 2 ^ k * 2 + x % 2
mod-pow_suc x k = omega (
  arith,
  mod-eq-sub-div-mul x (2 ^ suc k),
  mod-eq-sub-div-mul (x / 2) (2 ^ k),
  div-mul-le_self (x / 2) (2 ^ k),
  ap (λ (t : ℕ). t * 2 ^ suc k) (div-pow_suc x k),
  mul-pow_suc (x / 2 / 2 ^ k) k,
)

-- A mask of `k` ones takes the remainder.
pub bit_and_mask : (k m a : ℕ) → m + 1 ≡ 2 ^ k → bit_and a m ≡ a % 2 ^ k
bit_and_mask zero m a e =
    let none_set : m ≡ 0 = omega arith in rw none_set (bit_and-zero a ∙ sym (mod-one a))
bit_and_mask (suc k) m a e = omega (
  arith,
  bit_and_step a m,
  pow-suc 2 k,
  mod-pow_suc a k,
  bit_and_mask k (m / 2) (a / 2) (omega (arith, pow-suc 2 k)),
)

-- The last bit.
pub bit_and-one : (x : ℕ) → bit_and x 1 ≡ x % 2
bit_and-one x = bit_and_mask 1 1 x refl

half-mod-pow_suc : (x k : ℕ) → x % 2 ^ suc k / 2 ≡ x / 2 % 2 ^ k
half-mod-pow_suc x k = omega (arith, mod-pow_suc x k)

-- Exclusive or acts apart on the digits below `2 ^ k` and on those from there on.
pub bit_xor-div : (k a b : ℕ) → bit_xor a b / 2 ^ k ≡ bit_xor (a / 2 ^ k) (b / 2 ^ k)
bit_xor-div zero a b = simp div-one
bit_xor-div (suc k) a b =
    div-pow_suc (bit_xor a b) k
    ∙ ap (λ t. t / 2 ^ k) (bit_xor-div_two a b)
    ∙ bit_xor-div k (a / 2) (b / 2)
    ∙ ap₂ bit_xor (sym (div-pow_suc a k)) (sym (div-pow_suc b k))

pub bit_xor-mod : (k a b : ℕ) → bit_xor a b % 2 ^ k ≡ bit_xor (a % 2 ^ k) (b % 2 ^ k)
bit_xor-mod zero a b = simp mod-one
bit_xor-mod (suc k) a b =
    mod-pow_suc (bit_xor a b) k
    ∙ rw (bit_xor-div_two a b) (
        omega (
          arith,
          bit_xor-mod k (a / 2) (b / 2),
          ap₂ bit_xor (half-mod-pow_suc a k) (half-mod-pow_suc b k),
          bit_xor_step (a % 2 ^ suc k) (b % 2 ^ suc k),
          bit_xor-mod_two a b,
          mod-pow_suc a k,
          mod-pow_suc b k,
        ))

pub bit_xor-lt : (k a b : ℕ) → a < 2 ^ k → b < 2 ^ k → bit_xor a b < 2 ^ k
bit_xor-lt zero zero zero h p = omega (arith, bit_xor-zero 0)
bit_xor-lt zero zero (suc b) h p = absurd (omega arith)
bit_xor-lt zero (suc a) b h p = absurd (omega arith)
bit_xor-lt (suc k) a b h p = omega (
  arith,
  pow-suc 2 k,
  bit_xor_step a b,
  bit_xor-lt k (a / 2) (b / 2) (omega (arith, pow-suc 2 k)) (omega (arith, pow-suc 2 k)),
)
