-- ===== src/ByteUtils/Fields.antt =====
-- What `BitExtractor` of stf-inc/util.hpp extracts, in plain arithmetic.
use stf_lib.Common.{ℕ, ◌+◌, ◌-◌, ◌*◌, ◌/◌, ◌%◌, ◌^◌, ◌<◌, ◌≤◌, ◌≡◌, arith}
use stf_lib.Common.{ltb, ltb→lt, Bool-cases, inl, inr, ap, ◌∙◌, bit_and, List, [], ◌∷◌, refl}
use stf_lib.Common.Bits.{
  bit_and_field, field_fits, shift_field_left, shift_field_right, two_pow_pos, two_pow-lt,
  bit_or_field,
}
use stf_lib.ByteUtils.{bit_mask, shl, shr, relocate, extract, BitArg, get_arg, bit, bit_range}
use native.Mathlib.Nat.{mod-lt, mod-eq_of_lt}

-- A mask of `n` bits is all ones, in a type of up to 64 bits.
pub bit_mask_lem : (w n : ℕ) → n ≤ w → w ≤ 64 → bit_mask w n ≡ 2 ^ n - 1
unfolding bit_mask
bit_mask_lem w n hn hw = ground (arith, two_pow-lt n 64)

-- A field of `n + 1` bits whose top bit stands at `from` is moved to have it at `to`.
module _ (w n e to r : ℕ) (hr : r < 2 ^ (n + 1)) (hn : n ≤ to) (ht : to < w) where
  raise_field : n + e < to → shl w (r * 2 ^ e) (to - (n + e)) ≡ r * 2 ^ (to - n)
  raise_field h =
      shift_field_left r (n + 1) e (to - (n + e)) w hr (omega arith)
      ∙ ap (λ (t : ℕ). r * 2 ^ t) (omega arith)

  lower_field : to < n + e → shr (r * 2 ^ e) (n + e - to) ≡ r * 2 ^ (to - n)
  lower_field h =
      ap (λ (t : ℕ). r * 2 ^ t / 2 ^ (n + e - to)) (omega arith)
      ∙ shift_field_right r (to - n) (n + e - to)

  relocate_field : relocate w (n + e) to (r * 2 ^ e) ≡ r * 2 ^ (to - n)
  relocate_field = elim (Bool-cases (ltb (n + e) to)) [
    | inl up ↦ rw up (raise_field (ltb→lt _ _ up))
    | inr not_up ↦ rw not_up (elim (Bool-cases (ltb to (n + e))) [
      | inl down ↦ rw down (lower_field (ltb→lt _ _ down))
      | inr not_down ↦ rw not_down (ap (λ (t : ℕ). r * 2 ^ t) (ground arith))
    ])
  ]

range_mask :
    (w n e : ℕ) → n + 1 + e ≤ w → w ≤ 64 → shl w (bit_mask w (n + 1)) e ≡ (2 ^ (n + 1) - 1) * 2 ^ e
range_mask w n e he hw = rw (bit_mask_lem w (n + 1) (omega arith) hw) (
    mod-eq_of_lt (field_fits (2 ^ (n + 1) - 1) (n + 1) e w (omega (arith, two_pow_pos (n + 1))) he))

-- `BitRange<s, e, d>`: the bits from `e` to `s`, moved to have the top bit at `d`.
pub get_arg-bit_range :
    (w s e d v : ℕ)
    → e ≤ s
    → s < w
    → w ≤ 64
    → s - e ≤ d
    → d < w
    → get_arg w (bit_range s e d) v ≡ v / 2 ^ e % 2 ^ (s - e + 1) * 2 ^ (d - (s - e))
unfolding get_arg
get_arg-bit_range w s e d v he hs hw hd hdw =
    let n : ℕ = s - e in
    let field : ℕ = v / 2 ^ e % 2 ^ (n + 1) in
    ap (λ (t : ℕ). relocate w s d (bit_and v t)) (range_mask w n e (omega arith) hw)
    ∙ ap (relocate w s d) (bit_and_field e (n + 1) v)
    ∙ ap (λ (t : ℕ). relocate w t d (field * 2 ^ e)) (omega arith)
    ∙ relocate_field w n e d field (mod-lt (v / 2 ^ e) (two_pow_pos (n + 1))) hd hdw

-- `Bit<i, j>`: one bit, moved to `j`.
pub get_arg-bit : (w i j v : ℕ) → i < w → j < w → get_arg w (bit i j) v ≡ v / 2 ^ i % 2 * 2 ^ j
unfolding get_arg
get_arg-bit w i j v hi hj =
    ap (λ (t : ℕ). relocate w i j (bit_and v t))
      (mod-eq_of_lt (field_fits 1 1 i w (omega arith) (omega arith)))
    ∙ ap (relocate w i j) (bit_and_field i 1 v)
    ∙ ap (λ (t : ℕ). relocate w t j (v / 2 ^ i % 2 * 2 ^ i)) (omega arith)
    ∙ relocate_field w 0 i j (v / 2 ^ i % 2) (omega arith) (omega arith) hj
    ∙ ap (λ (t : ℕ). v / 2 ^ i % 2 * 2 ^ t) (omega arith)

-- The bits that an argument extracts: their number, and their place in the result.
abbrev pub arg_width : BitArg → ℕ
arg_width (bit i j) = 1
arg_width (bit_range s e d) = s - e + 1

abbrev pub arg_place : BitArg → ℕ
arg_place (bit i j) = j
arg_place (bit_range s e d) = d - (s - e)

abbrev pub arg_bits : BitArg → ℕ → ℕ
arg_bits (bit i j) v = v / 2 ^ i % 2
arg_bits (bit_range s e d) v = v / 2 ^ e % 2 ^ (s - e + 1)

-- The static assertions on the template parameters.
abbrev pub ArgFits : ℕ → BitArg → Type 0
ArgFits w (bit i j) = (i < w) × (j < w)
ArgFits w (bit_range s e d) = (e ≤ s) × (s < w) × (s - e ≤ d) × (d < w)

-- The extracted fields side by side.
abbrev pub fields_sum : List BitArg → ℕ → ℕ
fields_sum [] v = 0
fields_sum (a ∷ []) v = arg_bits a v * 2 ^ arg_place a
fields_sum (a ∷ b ∷ args) v = arg_bits a v * 2 ^ arg_place a + fields_sum (b ∷ args) v

-- Every argument fits, and its place is free in what the arguments behind it extract.
abbrev pub FieldsFit : ℕ → List BitArg → ℕ → Type 0
FieldsFit w [] v = Unit
FieldsFit w (a ∷ []) v = ArgFits w a
FieldsFit w (a ∷ b ∷ args) v =
    ArgFits w a
    × (fields_sum (b ∷ args) v / 2 ^ arg_place a % 2 ^ arg_width a ≡ 0)
    × FieldsFit w (b ∷ args) v

pub get_arg_lem :
    (w : ℕ) (a : BitArg) (v : ℕ)
    → w ≤ 64
    → ArgFits w a
    → get_arg w a v ≡ arg_bits a v * 2 ^ arg_place a
get_arg_lem w (bit i j) v hw (hi, hj) = get_arg-bit w i j v hi hj
get_arg_lem w (bit_range s e d) v hw (he, hs, hd, hdw) = get_arg-bit_range w s e d v he hs hw hd hdw

arg_bits-lt : (a : BitArg) (v : ℕ) → arg_bits a v < 2 ^ arg_width a
arg_bits-lt (bit i j) v = omega arith
arg_bits-lt (bit_range s e d) v = mod-lt (v / 2 ^ e) (two_pow_pos (s - e + 1))

-- `BitExtractor::get`: in a word of at most 64 bits, fields whose places do not overlap are
-- put side by side.
pub extract_lem :
    (w : ℕ) (args : List BitArg) (v : ℕ)
    → w ≤ 64
    → FieldsFit w args v
    → extract w args v ≡ fields_sum args v
unfolding extract
extract_lem w [] v hw fit = refl
extract_lem w (a ∷ []) v hw fit = get_arg_lem w a v hw fit
extract_lem w (a ∷ b ∷ args) v hw (fit, free, fits) =
    rw (get_arg_lem w a v hw fit, extract_lem w (b ∷ args) v hw fits)
      (bit_or_field (arg_place a) (arg_width a) (arg_bits a v) _ (arg_bits-lt a v) free)
