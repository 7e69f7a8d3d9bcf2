-- ===== src/Registers.antt =====
-- stf-inc/stf_reg_def.hpp: register numbers, their types, and `Registers::Codec`.
-- An STF_REG is its 32-bit value: the architectural number below the register type.
pub mod Codec
use stf_lib.Common.{ℕ, ◌+◌, ◌-◌, ◌*◌, ◌/◌, ◌%◌, ◌^◌, bit_and, bit_or, Bool, ◌&&◌, ◌||◌, leb, ◌==◌}
use stf_lib.ByteUtils.{shr}

-- STF_REG_TYPE, a uint8_t.
abbrev pub type_integer : ℕ
type_integer = 1

abbrev pub type_floating_point : ℕ
type_floating_point = 2

abbrev pub type_vector : ℕ
type_vector = 3

abbrev pub type_csr : ℕ
type_csr = 4

-- STF_REG_OPERAND_TYPE, a uint8_t.
abbrev pub reg_reserved : ℕ
reg_reserved = 0

abbrev pub reg_state : ℕ
reg_state = 1

abbrev pub reg_source : ℕ
reg_source = 2

abbrev pub reg_dest : ℕ
reg_dest = 3

unfoldable pub combine_reg_type : ℕ → ℕ → ℕ
combine_reg_type reg_num type = bit_or reg_num (type * 2 ^ 16 % 2 ^ 32)

unfoldable pub to_gpr : ℕ → ℕ
unfolding combine_reg_type
to_gpr reg_num = combine_reg_type reg_num type_integer

unfoldable pub to_fpr : ℕ → ℕ
unfolding combine_reg_type
to_fpr reg_num = combine_reg_type reg_num type_floating_point

unfoldable pub to_vector : ℕ → ℕ
unfolding combine_reg_type
to_vector reg_num = combine_reg_type reg_num type_vector

unfoldable pub to_csr : ℕ → ℕ
unfolding combine_reg_type
to_csr reg_num = combine_reg_type reg_num type_csr

unfoldable pub pack_reg_num : ℕ → ℕ
pack_reg_num reg = bit_and reg (2 ^ 16 - 1)

unfoldable pub is_nonstandard_csr : ℕ → Bool
unfolding to_csr
is_nonstandard_csr reg =
    leb (to_csr 0x7c0) reg && leb reg (to_csr 0x7ff)
    || leb (to_csr 0xbc0) reg && leb reg (to_csr 0xbff)
    || leb (to_csr 0xfc0) reg && leb reg (to_csr 0xfff)

-- The result is a uint8_t: the operand type above the register type.
unfoldable pub pack_reg_metadata : ℕ → ℕ → ℕ
pack_reg_metadata reg record_type = bit_or (record_type * 2 ^ 4 % 2 ^ 8) (shr reg 16) % 2 ^ 8

-- The register and the operand type that `Codec::decode` leaves in its last two arguments.
unfoldable pub decode : ℕ → ℕ → ℕ × ℕ
unfolding combine_reg_type
decode reg_no reg_metadata =
    let reg_type = bit_and reg_metadata 0xf in
    (combine_reg_type reg_no reg_type, shr reg_metadata 4)

unfoldable pub get_reg_type : ℕ → ℕ
get_reg_type reg = shr reg 16 % 2 ^ 8

unfoldable pub is_csr : ℕ → Bool
unfolding get_reg_type
is_csr reg = get_reg_type reg == type_csr

unfoldable pub is_fpr : ℕ → Bool
unfolding get_reg_type
is_fpr reg = get_reg_type reg == type_floating_point

unfoldable pub is_gpr : ℕ → Bool
unfolding get_reg_type
is_gpr reg = get_reg_type reg == type_integer

unfoldable pub is_vector : ℕ → Bool
unfolding get_reg_type
is_vector reg = get_reg_type reg == type_vector

-- The members of the enumeration STF_REG that the library's code names.
abbrev pub reg_x0 : ℕ
reg_x0 = to_gpr 0

abbrev pub reg_x1 : ℕ
reg_x1 = to_gpr 1

abbrev pub reg_x5 : ℕ
reg_x5 = to_gpr 5

abbrev pub reg_invalid : ℕ
reg_invalid = 2 ^ 32 - 1
