-- ===== src/Branch/Standard.antt =====
-- `decodeBranch32_` of stf-inc/stf_branch_decoder.hpp on JAL, JALR and the conditional branches.
use stf_lib.Common.{ℕ, ◌/◌, ◌%◌, ◌^◌, ◌<◌, ◌≡◌, arith}
use stf_lib.Common.{true, not, ◌&&◌, ◌||◌, ◌==◌, ltb}
use stf_lib.ByteUtils.{get_bit_range}
use stf_lib.Registers.{to_gpr}
use stf_lib.Branch.Decoder.{BranchInfo, decode_branch32, reset_info}
use stf_lib.Branch.Decoder.{decode_jal, decode_jalr, decode_conditional}
use stf_lib.Branch.Encoding.{pc_relative, encode_jal, encode_jalr, encode_branch}
use stf_lib.Branch.Fields.{jal_fields, extract-jal, get_target-sign_extend, encode_reg_num-to_gpr}
use stf_lib.Branch.Fields.{to_gpr-==, jalr_fields, branch_fields, branch_funct3, extract-branch}

decode_branch32-jal :
    (pc op : ℕ) (outputs : BranchInfo)
    → get_bit_range 32 6 5 1 op ≡ 3
    → get_bit_range 32 4 2 2 op ≡ 3
    → decode_branch32 pc op outputs ≡ (true, decode_jal pc op (reset_info outputs))
unfolding decode_branch32
decode_branch32-jal pc op outputs top bottom = rw (top, bottom)

-- Every JAL with an even offset decodes to its target and its link register; it is a call if
-- it links to x1 or x5.
pub decode_branch32-encode_jal :
    (pc rd imm : ℕ) (outputs : BranchInfo)
    → rd < 32
    → imm < 2 ^ 21
    → imm % 2 ≡ 0
    → decode_branch32 pc (encode_jal rd imm) outputs ≡ (
      true,
      record (reset_info outputs) {
        target = pc_relative 21 pc imm;
        rd = to_gpr rd;
        is_millicall = rd == 5;
        is_call = rd == 5 || rd == 1;
      },
    )
unfolding decode_jal
decode_branch32-encode_jal pc rd imm outputs hr hi he =
    let (top, bottom, dest) = jal_fields rd imm hr in
    rw
      (
        decode_branch32-jal pc _ outputs top bottom,
        dest,
        extract-jal rd imm hr hi he,
        encode_reg_num-to_gpr rd (omega arith),
        get_target-sign_extend 21 pc imm (omega arith) (omega arith) hi,
      )
      (rw (to_gpr-== rd 5 (omega arith) (omega arith), to_gpr-== rd 1 (omega arith) (omega arith)))

decode_branch32-jalr :
    (pc op : ℕ) (outputs : BranchInfo)
    → get_bit_range 32 6 5 1 op ≡ 3
    → get_bit_range 32 4 2 2 op ≡ 1
    → decode_branch32 pc op outputs ≡ (true, decode_jalr op (reset_info outputs))
unfolding decode_branch32
decode_branch32-jalr pc op outputs top bottom = rw (top, bottom)

-- Every JALR decodes to an indirect branch with its registers; it is a call if it links to x1
-- or x5, and a return if it jumps to x1 or x5 and links to another register.
pub decode_branch32-encode_jalr :
    (pc funct3 rd rs1 imm : ℕ) (outputs : BranchInfo)
    → funct3 < 8
    → rd < 32
    → rs1 < 32
    → decode_branch32 pc (encode_jalr funct3 rd rs1 imm) outputs ≡ (
      true,
      record (reset_info outputs) {
        rs1 = to_gpr rs1;
        rd = to_gpr rd;
        is_millicall = rd == 5;
        is_call = rd == 5 || rd == 1;
        is_millireturn = not (rs1 == rd) && rs1 == 5;
        is_return = not (rs1 == rd) && (rs1 == 5 || rs1 == 1);
        is_indirect = true;
      },
    )
unfolding decode_jalr
decode_branch32-encode_jalr pc funct3 rd rs1 imm outputs hf hr hs =
    let (top, bottom, dest, source) = jalr_fields funct3 rd rs1 imm hf hr hs in
    rw
      (
        decode_branch32-jalr pc _ outputs top bottom,
        dest,
        source,
        encode_reg_num-to_gpr rd (omega arith),
        encode_reg_num-to_gpr rs1 (omega arith),
        to_gpr-== rd 5 (omega arith) (omega arith),
        to_gpr-== rd 1 (omega arith) (omega arith),
        to_gpr-== rs1 rd (omega arith) (omega arith),
        to_gpr-== rs1 5 (omega arith) (omega arith),
        to_gpr-== rs1 1 (omega arith) (omega arith),
      )
      (ground arith)

decode_branch32-conditional :
    (pc op : ℕ) (outputs : BranchInfo)
    → get_bit_range 32 6 5 1 op ≡ 3
    → get_bit_range 32 4 2 2 op ≡ 0
    → decode_branch32 pc op outputs ≡ (true, decode_conditional pc op (reset_info outputs))
unfolding decode_branch32
decode_branch32-conditional pc op outputs top bottom = rw (top, bottom)

-- Every conditional branch of the ISA with an even offset decodes to its target, its two
-- source registers and its comparison.
pub decode_branch32-encode_branch :
    (pc funct3 rs1 rs2 imm : ℕ) (outputs : BranchInfo)
    → funct3 < 8
    → rs1 < 32
    → rs2 < 32
    → imm < 2 ^ 13
    → imm % 2 ≡ 0
    → decode_branch32 pc (encode_branch funct3 rs1 rs2 imm) outputs ≡ (
      true,
      record (reset_info outputs) {
        target = pc_relative 13 pc imm;
        rs1 = to_gpr rs1;
        rs2 = to_gpr rs2;
        is_conditional = true;
        compare_eq = ltb funct3 4 && funct3 % 2 == 0;
        compare_not_eq = ltb funct3 4 && not (funct3 % 2 == 0);
        compare_greater_than_or_equal = not (ltb funct3 4) && not (funct3 % 2 == 0);
        compare_less_than = not (ltb funct3 4) && funct3 % 2 == 0;
        compare_unsigned = not (funct3 / 2 % 2 == 0);
      },
    )
unfolding decode_conditional
decode_branch32-encode_branch pc funct3 rs1 rs2 imm outputs hf hr hs hi he =
    let (top, bottom, first, second) = branch_fields funct3 rs1 rs2 imm hf hr hs in
    let (b14, b13, b12) = branch_funct3 funct3 rs1 rs2 imm hf hr hs in
    rw
      (
        decode_branch32-conditional pc _ outputs top bottom,
        first,
        second,
        b14,
        b13,
        b12,
        extract-branch funct3 rs1 rs2 imm hf hr hs hi he,
        encode_reg_num-to_gpr rs1 (omega arith),
        encode_reg_num-to_gpr rs2 (omega arith),
        get_target-sign_extend 13 pc imm (omega arith) (omega arith) hi,
      )
      (ground arith)
