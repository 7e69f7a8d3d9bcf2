-- ===== src/Common/Bits.antt =====
-- Laws of `bit_and` and `bit_or` at variables: masks and disjoint fields as arithmetic.
use Prim.Native.Nat.{ℕ, zero, suc, ◌+◌, ◌-◌, ◌*◌, ◌/◌, ◌%◌, ◌^◌, ◌≤◌, ◌<◌, min, max}
use Prim.Native.Nat.{bit_and, bit_or, digits, bitwise, bit_and-bitwise, bit_or-bitwise}
use mathlib.Core.Path.{◌≡◌, refl, sym, ap}
use native.Mathlib.Nat.{
  add-zero, add-suc, mul_assoc, mod-eq_of_lt, pow-le-pow_right, mul-div_cancel,
}
use native.Mathlib.Nat.{mul-lt-mul_of_pos_right}
use native.Mathlib.Nat.{le_refl, pow-suc, one-le-pow, div-add-mod, div-div-eq-div-mul, div-one}
use native.Mathlib.Omega.{arith}

-- An operation on all digits but the last, and one on the last.
abbrev pub by_digits : (ℕ → ℕ → ℕ) → (ℕ → ℕ → ℕ) → ℕ → ℕ → ℕ
by_digits op digit a b = op (a / 2) (b / 2) * 2 + digit (a % 2) (b % 2)

-- The native operations are recursions on binary digits; any fuel from the first operand up serves.
module _ (rest : ℕ → ℕ) (digit : ℕ → ℕ → ℕ) where
  enough_digits : (n m a b : ℕ) → a ≤ n → a ≤ m → digits rest digit n a b ≡ digits rest digit m a b
  enough_digits zero zero a b hn hm = refl
  enough_digits zero (suc m) zero b hn hm = refl
  enough_digits zero (suc m) (suc a) b hn hm = absurd (omega arith)
  enough_digits (suc n) zero zero b hn hm = refl
  enough_digits (suc n) zero (suc a) b hn hm = absurd (omega arith)
  enough_digits (suc n) (suc m) zero b hn hm = refl
  enough_digits (suc n) (suc m) (suc a) b hn hm =
      rw (enough_digits n m (suc a / 2) (b / 2) (omega arith) (omega arith))

  bitwise_halves :
      (a b : ℕ) → bitwise rest digit (suc a) b ≡ by_digits (bitwise rest digit) digit (suc a) b
  bitwise_halves a b =
      omega (arith, enough_digits a (suc a / 2) (suc a / 2) (b / 2) (omega arith) (le_refl _))

pub bit_and_halves : (a b : ℕ) → bit_and a b ≡ by_digits bit_and min a b
bit_and_halves zero b = simp bit_and-bitwise (omega arith)
bit_and_halves (suc a) b = simp bit_and-bitwise (bitwise_halves (λ y. 0) min a b)

pub bit_or_halves : (a b : ℕ) → bit_or a b ≡ by_digits bit_or max a b
bit_or_halves zero b = simp bit_or-bitwise (omega arith)
bit_or_halves (suc a) b = simp bit_or-bitwise (bitwise_halves (λ y. y) max a b)

bit_and-zero : (n a : ℕ) → a ≤ n → bit_and a 0 ≡ 0
bit_and-zero n zero h = refl
bit_and-zero zero (suc a) h = absurd (omega arith)
bit_and-zero (suc n) (suc a) h =
    omega (arith, bit_and_halves (suc a) 0, bit_and-zero n (suc a / 2) (omega arith))

pub zero-bit_or : (b : ℕ) → bit_or 0 b ≡ b
zero-bit_or b = bit_or-bitwise 0 b

pub two_pow_suc : (e : ℕ) → 2 ^ suc e ≡ 2 * 2 ^ e
two_pow_suc e = omega (arith, pow-suc 2 e)

pub div-two_pow_suc : (v e : ℕ) → v / 2 ^ suc e ≡ v / 2 / 2 ^ e
div-two_pow_suc v e = rw two_pow_suc (sym (div-div-eq-div-mul v 2 (2 ^ e)))

-- The lowest digit of a remainder by a power of two.
pub mod-two_pow_suc : (v e : ℕ) → v % 2 ^ suc e ≡ v / 2 % 2 ^ e * 2 + v % 2
mod-two_pow_suc v e = omega (
  arith,
  div-add-mod v (2 ^ suc e),
  div-add-mod (v / 2) (2 ^ e),
  ap (λ (t : ℕ). t * (v / 2 / 2 ^ e)) (two_pow_suc e),
  ap (λ (t : ℕ). 2 ^ suc e * t) (div-two_pow_suc v e),
)

mul-two_pow_suc : (q e : ℕ) → q * 2 ^ suc e ≡ 2 * (q * 2 ^ e)
mul-two_pow_suc q e = omega (arith, ap (λ (t : ℕ). q * t) (two_pow_suc e))

half_of_double : (n : ℕ) → 2 * n / 2 ≡ n
half_of_double n = omega arith

low_half : (w : ℕ) → (2 ^ suc w - 1) / 2 ≡ 2 ^ w - 1
low_half w = omega (arith, two_pow_suc w, one-le-pow w 2 (omega arith))

pub bit_and_low : (w v : ℕ) → bit_and v (2 ^ w - 1) ≡ v % 2 ^ w
bit_and_low zero v = rw (bit_and-zero v v (le_refl _)) (omega arith)
bit_and_low (suc w) v = omega (
  arith,
  bit_and_halves v (2 ^ suc w - 1),
  two_pow_suc w,
  one-le-pow w 2 (omega arith),
  mod-two_pow_suc v w,
  bit_and_low w (v / 2),
  ap (λ (t : ℕ). bit_and (v / 2) t) (low_half w),
)

-- `v & (((1 << w) - 1) << e)`: the field of width `w` from bit `e` on, left where it is.
pub bit_and_field : (e w v : ℕ) → bit_and v ((2 ^ w - 1) * 2 ^ e) ≡ v / 2 ^ e % 2 ^ w * 2 ^ e
bit_and_field zero w v = ground (arith, bit_and_low w v, div-one v)
bit_and_field (suc e) w v = omega (
  arith,
  bit_and_halves v ((2 ^ w - 1) * 2 ^ suc e),
  mul-two_pow_suc (2 ^ w - 1) e,
  mul-two_pow_suc (v / 2 ^ suc e % 2 ^ w) e,
  ap (λ (t : ℕ). t % 2 ^ w * 2 ^ e) (div-two_pow_suc v e),
  bit_and_field e w (v / 2),
  ap (λ (t : ℕ). bit_and (v / 2) (t / 2)) (mul-two_pow_suc (2 ^ w - 1) e),
  ap (λ (t : ℕ). bit_and (v / 2) t) (half_of_double ((2 ^ w - 1) * 2 ^ e)),
)

pub bit_or_low : (w r y : ℕ) → r < 2 ^ w → y % 2 ^ w ≡ 0 → bit_or r y ≡ r + y
bit_or_low zero r y hr hy = ground (arith, zero-bit_or y)
bit_or_low (suc w) r y hr hy = omega (
  arith,
  bit_or_halves r y,
  mod-two_pow_suc y w,
  two_pow_suc w,
  bit_or_low w (r / 2) (y / 2) (omega (arith, two_pow_suc w)) (omega (arith, mod-two_pow_suc y w)),
)

-- A field of width `w` from bit `e` on joins a number that has zeros there as a sum.
pub bit_or_field :
    (e w r y : ℕ) → r < 2 ^ w → y / 2 ^ e % 2 ^ w ≡ 0 → bit_or (r * 2 ^ e) y ≡ r * 2 ^ e + y
bit_or_field zero w r y hr hy = ground (arith, bit_or_low w r y, div-one y)
bit_or_field (suc e) w r y hr hy = omega (
  arith,
  bit_or_halves (r * 2 ^ suc e) y,
  mul-two_pow_suc r e,
  bit_or_field e w r (y / 2) hr (rw (← div-two_pow_suc y e) hy),
  ap (λ (t : ℕ). bit_or (t / 2) (y / 2)) (mul-two_pow_suc r e),
  ap (λ (t : ℕ). bit_or t (y / 2)) (half_of_double (r * 2 ^ e)),
)

-- Powers of two and shifts of a field.
pub two_pow-add : (a b : ℕ) → 2 ^ (a + b) ≡ 2 ^ a * 2 ^ b
two_pow-add a zero = rw add-zero (omega arith)
two_pow-add a (suc b) = rw add-suc (
    omega (
      arith,
      two_pow_suc (a + b),
      two_pow_suc b,
      two_pow-add a b,
      ap (λ (t : ℕ). 2 ^ a * t) (two_pow_suc b),
    ))

pub two_pow_pos : (e : ℕ) → 0 < 2 ^ e
two_pow_pos e = one-le-pow e 2 (omega arith)

shift_twice : (r a k : ℕ) → r * 2 ^ a * 2 ^ k ≡ r * 2 ^ (a + k)
shift_twice r a k = rw (two_pow-add a k) (mul_assoc r (2 ^ a) (2 ^ k))

pub field_fits : (r n e w : ℕ) → r < 2 ^ n → n + e ≤ w → r * 2 ^ e < 2 ^ w
field_fits r n e w hr hw = omega (
  arith,
  mul-lt-mul_of_pos_right hr (two_pow_pos e),
  two_pow-add n e,
  pow-le-pow_right {n = 2} (omega arith) hw,
)

pub shift_field_left :
    (r n a k w : ℕ) → r < 2 ^ n → n + (a + k) ≤ w → r * 2 ^ a * 2 ^ k % 2 ^ w ≡ r * 2 ^ (a + k)
shift_field_left r n a k w hr hw =
    rw (shift_twice r a k) (mod-eq_of_lt (field_fits r n (a + k) w hr hw))

pub shift_field_right : (r a k : ℕ) → r * 2 ^ (a + k) / 2 ^ k ≡ r * 2 ^ a
shift_field_right r a k = rw (← shift_twice r a k) (mul-div_cancel (r * 2 ^ a) (two_pow_pos k))

pub two_pow-lt : (n m : ℕ) → n < m → 2 ^ n < 2 ^ m
two_pow-lt n m h =
    omega (arith, two_pow_suc n, two_pow_pos n, pow-le-pow_right {n = 2} (omega arith) h)
