-- ===== src/Tests/Branch.antt =====
-- The branch decoder of stf-inc/stf_branch_decoder.hpp on instructions as an assembler gives them.
use stf_lib.Common.{◌≡◌, ◌-◌, ◌^◌, ◌<◌, ◌+◌, refl, arith, true, false, ok, err}
use stf_lib.ByteUtils.{bit_mask, get_arg, get_bit_range}
use stf_lib.Registers.{combine_reg_type, to_gpr, reg_invalid}
use stf_lib.Branch.Decoder.{InstIem, opcode32, initial_info, decode}
use stf_lib.Branch.Decoder.{decode_branch32, decode_branch16, reset_info, decode_jalr}
use stf_lib.Branch.Decoder.{encode_reg_num}
use stf_lib.Branch.Encoding.{
  pc_relative, encode_jal, encode_jalr, encode_branch, encode_cj, encode_cb, encode_cr,
}
use stf_lib.Branch.Standard.{
  decode_branch32-encode_jal, decode_branch32-encode_jalr, decode_branch32-encode_branch,
}
use stf_lib.Branch.Compressed.{decode_branch16-encode_cj}
use stf_lib.Branch.Compressed.{decode_branch16-encode_cb, decode_branch16-encode_cr}
use stf_lib.Branch.Item.{StfBranch, decode_into, OperandMap, add_operand, size}
use stf_lib.Branch.Item.{third_source, indirect_without_target}
use stf_lib.Branch.Consistency.{
  IsConsistent, decode-IsConsistent, decode_into_lem, decode_branch32_iff,
}
use stf_lib.Branch.Operands.{IsValid, added, add_operand-IsValid}

-- `jal ra, 0x7d0` at 0x1000.
decode_branch32-encode_jal_example :
    decode_branch32 0x1000 0x7d0000ef initial_info
    ≡ (true, record initial_info { target = 0x17d0; rd = to_gpr 1; is_call = true })
unfolding encode_jal pc_relative reset_info
decode_branch32-encode_jal_example =
    decode_branch32-encode_jal 0x1000 1 0x7d0 initial_info (omega arith) (omega arith) (omega arith)

-- `ret`, which is `jalr zero, 0(ra)`.
decode_branch32-encode_jalr_example : decode_branch32 0x1000 0x00008067 initial_info ≡ (
  true,
  record initial_info { rs1 = to_gpr 1; rd = to_gpr 0; is_return = true; is_indirect = true },
)
unfolding encode_jalr reset_info
decode_branch32-encode_jalr_example =
    decode_branch32-encode_jalr 0x1000 0 0 1 0 initial_info (omega arith) (omega arith)
      (omega arith)

-- `bltu a0, a1, -8` at 0x1000.
decode_branch32-encode_branch_example : decode_branch32 0x1000 0xfeb56ce3 initial_info ≡ (
  true,
  record initial_info {
    target = 0xff8;
    rs1 = to_gpr 10;
    rs2 = to_gpr 11;
    is_conditional = true;
    compare_less_than = true;
    compare_unsigned = true;
  },
)
unfolding encode_branch pc_relative reset_info
decode_branch32-encode_branch_example =
    decode_branch32-encode_branch 0x1000 6 10 11 (2 ^ 13 - 8) initial_info (omega arith)
      (omega arith) (omega arith) (omega arith) (omega arith)

-- `c.j -2` at 0x1000.
decode_branch16-encode_cj_example :
    decode_branch16 InstIem.rv64 0x1000 0xbffd initial_info
    ≡ (true, record initial_info { target = 0xffe })
unfolding encode_cj pc_relative reset_info
decode_branch16-encode_cj_example =
    decode_branch16-encode_cj InstIem.rv64 0x1000 initial_info (2 ^ 12 - 2) (omega arith)
      (omega arith)

-- `c.beqz a0, 16` at 0x1000.
decode_branch16-encode_cb_example : decode_branch16 InstIem.rv64 0x1000 0xc901 initial_info ≡ (
  true,
  record initial_info {
    target = 0x1010;
    rs1 = to_gpr 10;
    rs2 = to_gpr 0;
    is_conditional = true;
    compare_eq = true;
  },
)
unfolding encode_cb pc_relative reset_info
decode_branch16-encode_cb_example =
    decode_branch16-encode_cb InstIem.rv64 0x1000 initial_info true 10 16 (omega arith)
      (omega arith) (omega arith) (omega arith)

-- `c.jalr t0`.
decode_branch16-encode_cr_example : decode_branch16 InstIem.rv32 0x1000 0x9282 initial_info ≡ (
  true,
  record initial_info { rs1 = to_gpr 5; rd = to_gpr 1; is_call = true; is_indirect = true },
)
unfolding encode_cr reset_info
decode_branch16-encode_cr_example =
    decode_branch16-encode_cr InstIem.rv32 0x1000 initial_info 1 5 (omega arith) (omega arith)
      (omega arith)

abbrev new_item : StfBranch
new_item = record {
  index = 0;
  unskipped_index = 0;
  skipped = false;
  inst_index = 0;
  unskipped_inst_index = 0;
  pc = 0;
  opcode = 0;
  target_opcode = 0;
  rs1_value = 0;
  rs2_value = 0;
  rd_value = 0;
  taken = false;
  info = initial_info;
}

-- A `ret` in a trace without a target.
decode_into_lem_example :
    decode_into InstIem.rv64 (opcode32 0x1000 0x00008067) new_item ≡ err indirect_without_target
unfolding decode decode_branch32 decode_jalr reset_info encode_reg_num combine_reg_type to_gpr
    get_bit_range get_arg bit_mask
decode_into_lem_example = decode_into_lem InstIem.rv64 (opcode32 0x1000 0x00008067) new_item

decode-IsConsistent_example :
    IsConsistent (decode InstIem.rv64 (opcode32 0x1000 0x00008067) initial_info).1
unfolding decode decode_branch32 get_bit_range get_arg bit_mask
decode-IsConsistent_example =
    decode-IsConsistent InstIem.rv64 (opcode32 0x1000 0x00008067) initial_info refl

-- `addi` is no branch.
decode_branch32_iff_example : (decode_branch32 0x1000 0x00000013 initial_info).0 ≡ false
decode_branch32_iff_example = decode_branch32_iff 0x1000 0x00000013 initial_info

abbrev one_operand : OperandMap
one_operand = record {
  wr_index = 1;
  first = record { reg = to_gpr 5; val = 7 };
  second = record { reg = reg_invalid; val = 0 };
}

one_operand-IsValid : IsValid one_operand
one_operand-IsValid = ground arith

add_operand-IsValid_example :
    (one_operand.wr_index ≡ 2 → add_operand one_operand (to_gpr 6) 8 ≡ err third_source)
    × (one_operand.wr_index < 2
        → add_operand one_operand (to_gpr 6) 8 ≡ ok (added one_operand (to_gpr 6) 8))
    × (one_operand.wr_index < 2
        → IsValid (added one_operand (to_gpr 6) 8)
          × (size (added one_operand (to_gpr 6) 8) ≡ size one_operand + 1))
add_operand-IsValid_example = add_operand-IsValid one_operand (to_gpr 6) 8 one_operand-IsValid
