-- ===== src/RegState/Fields.antt =====
-- A field of a register in plain arithmetic.
use stf_lib.Common.{
  ℕ, suc, ◌+◌, ◌-◌, ◌*◌, ◌/◌, ◌%◌, ◌^◌, ◌≤◌, ◌<◌, ◌≡◌, sym, ap, ◌∙◌, arith, bit_and, bit_or,
}
use stf_lib.Common.Bits.{bit_and_low, bit_or_low, two_pow_pos, two_pow-add, field_fits}
use stf_lib.Common.BitOps.{bit_or_comm, bit_or-div, bit_and-div, bit_and-clear}
use stf_lib.ByteUtils.{bit_mask, shl}
use stf_lib.ByteUtils.Fields.{bit_mask_lem}
use native.Mathlib.Nat.{
  add-mul-div_right, div-eq_of_lt, mul-mod_right, mod-eq_of_lt, mod-lt, mod-add-mod, mul-div_cancel,
}
use stf_lib.RegState.{RegMapInfo, apply_field}

-- The places outside of a field of width w from bit s on: none of them is in the field.
places : (x y z : ℕ) → suc x * (suc y * suc z) - 1 - y * suc x ≡ x + suc y * z * suc x
places x y z = grind arith

outside_field : (x y z : ℕ) → (suc x * (suc y * suc z) - 1 - y * suc x) / suc x % suc y ≡ 0
outside_field x y z =
    ap (λ (t : ℕ). t / suc x % suc y) (places x y z)
    ∙ (ap (λ (t : ℕ). t % suc y) (add-mul-div_right x (suc y * z) (omega arith))
        ∙ (ap (λ (t : ℕ). (t + suc y * z) % suc y) (div-eq_of_lt (omega arith))
            ∙ (ap (λ (t : ℕ). t % suc y) (omega arith) ∙ mul-mod_right (suc y) z)))

outside_of :
    (a b c x y z : ℕ)
    → a ≡ suc x
    → b ≡ suc y
    → c ≡ suc z
    → (a * (b * c) - 1 - (b - 1) * a) / a % b ≡ 0
outside_of a b c x y z ha hb hc = rw ha (
    rw hb (
      rw hc (
        ap (λ (t : ℕ). (suc x * (suc y * suc z) - 1 - t * suc x) / suc x % suc y) (omega arith)
        ∙ outside_field x y z)))

outside : (s w k : ℕ) → (2 ^ (s + (w + k)) - 1 - (2 ^ w - 1) * 2 ^ s) / 2 ^ s % 2 ^ w ≡ 0
outside s w k = rw (two_pow-add s (w + k)) (
    rw (two_pow-add w k) (
      outside_of (2 ^ s) (2 ^ w) (2 ^ k) (2 ^ s - 1) (2 ^ w - 1) (2 ^ k - 1)
        (omega (arith, two_pow_pos s)) (omega (arith, two_pow_pos w))
        (omega (arith, two_pow_pos k))))

-- A field of a register of 64 bits.
pub record IsField (width : ℕ) (info : RegMapInfo) : Type 0 where
  pub mask_of : info.mask ≡ bit_mask 64 width
  pub fits : info.shift_bits + width ≤ 64

module _ (info : RegMapInfo) (width : ℕ) (h : IsField width info) where
  pub field_mask : info.mask ≡ 2 ^ width - 1
  field_mask = h.mask_of ∙ bit_mask_lem 64 width (omega (arith, h.fits)) (omega arith)

  cleared : ℕ
  cleared = 2 ^ 64 - 1 - (2 ^ width - 1) * 2 ^ info.shift_bits

  shifted_mask : shl 64 info.mask info.shift_bits ≡ (2 ^ width - 1) * 2 ^ info.shift_bits
  shifted_mask =
      ap (λ (t : ℕ). t * 2 ^ info.shift_bits % 2 ^ 64) field_mask
      ∙ mod-eq_of_lt (
          field_fits (2 ^ width - 1) width info.shift_bits 64 (omega (arith, two_pow_pos width))
            (omega (arith, h.fits)))

  shifted_value :
      (value : ℕ)
      → shl 64 (bit_and value info.mask) info.shift_bits ≡ value % 2 ^ width * 2 ^ info.shift_bits
  shifted_value value =
      ap (λ (t : ℕ). bit_and value t * 2 ^ info.shift_bits % 2 ^ 64) field_mask
      ∙ (ap (λ (t : ℕ). t * 2 ^ info.shift_bits % 2 ^ 64) (bit_and_low width value)
          ∙ mod-eq_of_lt (
              field_fits (value % 2 ^ width) width info.shift_bits 64
                (mod-lt value (two_pow_pos width)) (omega (arith, h.fits))))

  cleared_field : cleared / 2 ^ info.shift_bits % 2 ^ width ≡ 0
  unfolding cleared
  cleared_field =
      ap
        (λ (t : ℕ).
          (2 ^ t - 1 - (2 ^ width - 1) * 2 ^ info.shift_bits) / 2 ^ info.shift_bits % 2 ^ width)
        {x = 64} (omega (arith, h.fits))
      ∙ outside info.shift_bits width (64 - (info.shift_bits + width))

  -- The other places of the parent, moved down.
  rest_of : ℕ → ℕ
  rest_of parent = bit_and (parent / 2 ^ info.shift_bits) (cleared / 2 ^ info.shift_bits)

  apply_field_parts :
      (parent value : ℕ)
      → apply_field info parent value / 2 ^ info.shift_bits
        ≡ bit_or (rest_of parent) (value % 2 ^ width)
  unfolding apply_field rest_of cleared
  apply_field_parts parent value =
      ap
        (λ (t : ℕ).
          bit_or (bit_and parent (2 ^ 64 - 1 - t))
            (shl 64 (bit_and value info.mask) info.shift_bits)
          / 2 ^ info.shift_bits)
        shifted_mask
      ∙ (ap
            (λ (t : ℕ).
              bit_or (bit_and parent (2 ^ 64 - 1 - (2 ^ width - 1) * 2 ^ info.shift_bits)) t
              / 2 ^ info.shift_bits)
            (shifted_value value)
          ∙ (bit_or-div info.shift_bits _ _
              ∙ cc (
                bit_and-div info.shift_bits parent
                    (2 ^ 64 - 1 - (2 ^ width - 1) * 2 ^ info.shift_bits),
                mul-div_cancel (value % 2 ^ width) (two_pow_pos info.shift_bits),
              )))

  joined : (y r : ℕ) → y % 2 ^ width ≡ 0 → r < 2 ^ width → bit_or y r % 2 ^ width ≡ r
  joined y r hy hr =
      ap (λ (t : ℕ). t % 2 ^ width)
        (bit_or_comm (y + r) y r (omega arith) (omega arith)
          ∙ (bit_or_low width r y hr hy ∙ omega arith))
      ∙ (sym (mod-add-mod y (2 ^ width) r)
          ∙ (ap (λ (t : ℕ). (t + r) % 2 ^ width) hy
              ∙ (ap (λ (t : ℕ). t % 2 ^ width) {x = 0 + r} {y = r} (omega arith)
                  ∙ mod-eq_of_lt hr)))

  -- What `apply` puts into the field is found there.
  pub apply_field_lem :
      (parent value : ℕ)
      → apply_field info parent value / 2 ^ info.shift_bits % 2 ^ width ≡ value % 2 ^ width
  unfolding rest_of
  apply_field_lem parent value =
      ap (λ (t : ℕ). t % 2 ^ width) (apply_field_parts parent value)
      ∙ joined (rest_of parent) (value % 2 ^ width)
          (bit_and-clear width (parent / 2 ^ info.shift_bits) (cleared / 2 ^ info.shift_bits)
            cleared_field)
          (mod-lt value (two_pow_pos width))
