-- ===== src/Common/BitOps.antt =====
-- `bit_and` and `bit_or` on high and on low bits.
use stf_lib.Common.Bits.{bit_and_halves, bit_or_halves, div-two_pow_suc, mod-two_pow_suc}
use Prim.Native.Nat.{ℕ, zero, suc, ◌/◌, ◌%◌, ◌^◌, ◌≤◌, bit_and, bit_or}
use mathlib.Core.Path.{◌≡◌, sym, ap, ◌∙◌}
use native.Mathlib.Nat.{div-one}
use native.Mathlib.Omega.{arith}

zero_of : (a : ℕ) → a ≤ 0 → a ≡ 0
zero_of a h = omega arith

pub bit_or_comm : (n a b : ℕ) → a ≤ n → b ≤ n → bit_or a b ≡ bit_or b a
bit_or_comm zero a b ha hb = cc (zero_of a ha, zero_of b hb)
bit_or_comm (suc n) a b ha hb = omega (
  arith,
  bit_or_halves a b,
  bit_or_halves b a,
  bit_or_comm n (a / 2) (b / 2) (omega arith) (omega arith),
)

bit_or_half : (a b : ℕ) → bit_or a b / 2 ≡ bit_or (a / 2) (b / 2)
bit_or_half a b = omega (arith, bit_or_halves a b)

bit_and_half : (a b : ℕ) → bit_and a b / 2 ≡ bit_and (a / 2) (b / 2)
bit_and_half a b = omega (arith, bit_and_halves a b)

-- An operation on digits commutes with a shift to the right.
module _ (op : ℕ → ℕ → ℕ) (half : (a b : ℕ) → op a b / 2 ≡ op (a / 2) (b / 2)) where
  shifted : (s a b : ℕ) → op a b / 2 ^ s ≡ op (a / 2 ^ s) (b / 2 ^ s)
  shifted zero a b = div-one (op a b) ∙ sym (cc (div-one a, div-one b))
  shifted (suc s) a b =
      div-two_pow_suc (op a b) s
      ∙ (ap (λ (t : ℕ). t / 2 ^ s) (half a b)
          ∙ (shifted s (a / 2) (b / 2) ∙ sym (cc (div-two_pow_suc a s, div-two_pow_suc b s))))

pub bit_or-div : (s a b : ℕ) → bit_or a b / 2 ^ s ≡ bit_or (a / 2 ^ s) (b / 2 ^ s)
bit_or-div s a b = shifted bit_or bit_or_half s a b

pub bit_and-div : (s a b : ℕ) → bit_and a b / 2 ^ s ≡ bit_and (a / 2 ^ s) (b / 2 ^ s)
bit_and-div s a b = shifted bit_and bit_and_half s a b

-- Digits that are 0 on the right.
pub bit_and-clear : (w a b : ℕ) → b % 2 ^ w ≡ 0 → bit_and a b % 2 ^ w ≡ 0
bit_and-clear zero a b h = omega arith
bit_and-clear (suc w) a b h = omega (
  arith,
  bit_and_halves a b,
  mod-two_pow_suc (bit_and a b) w,
  mod-two_pow_suc b w,
  bit_and-clear w (a / 2) (b / 2) (omega (arith, mod-two_pow_suc b w)),
  ap (λ (t : ℕ). t % 2 ^ w) (bit_and_half a b),
)
