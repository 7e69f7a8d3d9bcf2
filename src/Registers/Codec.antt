-- ===== src/Registers/Codec.antt =====
-- `Registers::Codec` of stf-inc/stf_reg_def.hpp in plain arithmetic.
use stf_lib.Common.{ℕ, ◌+◌, ◌*◌, ◌/◌, ◌%◌, ◌^◌, ◌<◌, ◌≡◌, ap, ◌∙◌, arith}
use stf_lib.Common.{bit_and, bit_or}
use stf_lib.Common.Bits.{bit_and_low, bit_or_low, bit_or_field}
use stf_lib.Registers.{combine_reg_type, pack_reg_num, pack_reg_metadata, decode}

pub combine_reg_type_lem :
    (num type : ℕ) → num < 2 ^ 16 → type < 2 ^ 8 → combine_reg_type num type ≡ type * 2 ^ 16 + num
unfolding combine_reg_type
combine_reg_type_lem num type hn ht =
    bit_or_low 16 num (type * 2 ^ 16 % 2 ^ 32) hn (omega arith) ∙ omega arith

pub pack_reg_num_lem : (reg : ℕ) → pack_reg_num reg ≡ reg % 2 ^ 16
unfolding pack_reg_num
pack_reg_num_lem reg = bit_and_low 16 reg

high_nibble : (op : ℕ) → op < 2 ^ 4 → op * 2 ^ 4 % 2 ^ 8 ≡ op * 2 ^ 4
high_nibble op ho = omega arith

pub pack_reg_metadata_lem :
    (reg op : ℕ) → reg < 2 ^ 20 → op < 2 ^ 4 → pack_reg_metadata reg op ≡ op * 2 ^ 4 + reg / 2 ^ 16
unfolding pack_reg_metadata
pack_reg_metadata_lem reg op hr ho = omega (
  arith,
  ap (λ (t : ℕ). bit_or t (reg / 2 ^ 16)) (high_nibble op ho),
  bit_or_field 4 4 op (reg / 2 ^ 16) ho (omega arith),
)

-- A register of a type below 16 and its operand type, below 16 too, come back from the packed
-- number and the metadata byte of a register record.
pub decode-pack :
    (reg op : ℕ)
    → reg < 2 ^ 20
    → op < 2 ^ 4
    → decode (pack_reg_num reg) (pack_reg_metadata reg op) ≡ (reg, op)
unfolding decode
decode-pack reg op hr ho = ground (
  arith,
  pack_reg_num_lem reg,
  pack_reg_metadata_lem reg op hr ho,
  bit_and_low 4 (pack_reg_metadata reg op),
  combine_reg_type_lem (pack_reg_num reg) (bit_and (pack_reg_metadata reg op) 15),
)
