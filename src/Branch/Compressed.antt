-- ===== src/Branch/Compressed.antt =====
-- `decodeBranch16_` of stf-inc/stf_branch_decoder.hpp on the compressed branches of the ISA.
use stf_lib.Common.{ℕ, ◌%◌, ◌^◌, ◌<◌, ◌≤◌, ◌≡◌, arith}
use stf_lib.Common.{Bool, true, false, not, ◌&&◌, ◌||◌, ◌==◌, if◌then◌else◌}
use stf_lib.ByteUtils.{get_bit_range}
use stf_lib.Registers.{to_gpr}
use stf_lib.Branch.Decoder.{InstIem, BranchInfo, decode_branch16, reset_info}
use stf_lib.Branch.Decoder.{is_rv32}
use stf_lib.Branch.Decoder.{decode_c_jal, decode_c_branch, decode_c_jr, decode_c_pop_or_j}
use stf_lib.Branch.Decoder.{get_cj_target}
use stf_lib.Branch.Encoding.{pc_relative}
use stf_lib.Branch.Encoding.{encode_cj, encode_cb, encode_cr}
use stf_lib.Branch.Fields.{get_target-sign_extend, encode_reg_num-to_gpr}
use stf_lib.Branch.Fields.{cj_fields, extract-cj, cb_fields, extract-cb, cr_fields}

-- The compressed formats: the case that the switch takes on `funct3`.
module _ (iem : InstIem) (pc : ℕ) (outputs : BranchInfo) where
  decode_branch16-c_j :
      (op : ℕ)
      → get_bit_range 16 15 13 2 op ≡ 5
      → decode_branch16 iem pc op outputs
        ≡ decode_c_pop_or_j pc op (get_bit_range 16 1 0 1 op) (reset_info outputs)
  unfolding decode_branch16
  decode_branch16-c_j op top = rw top

  decode_branch16-c_jal :
      (op : ℕ)
      → get_bit_range 16 15 13 2 op ≡ 1
      → decode_branch16 iem pc op outputs
        ≡ decode_c_jal iem pc op (get_bit_range 16 1 0 1 op) (reset_info outputs)
  unfolding decode_branch16
  decode_branch16-c_jal op top = rw top

  decode_branch16-c_branch :
      (op : ℕ) (eq : Bool)
      → get_bit_range 16 15 13 2 op ≡ (if eq then 6 else 7)
      → decode_branch16 iem pc op outputs
        ≡ decode_c_branch eq pc op (get_bit_range 16 1 0 1 op) (reset_info outputs)
  unfolding decode_branch16
  decode_branch16-c_branch op true top = rw top
  decode_branch16-c_branch op false top = rw top

  decode_branch16-c_jr :
      (op : ℕ)
      → get_bit_range 16 15 13 2 op ≡ 4
      → decode_branch16 iem pc op outputs
        ≡ decode_c_jr op (get_bit_range 16 1 0 1 op) (reset_info outputs)
  unfolding decode_branch16
  decode_branch16-c_jr op top = rw top

  -- Every C.J with an even offset decodes to a jump to its target.
  pub decode_branch16-encode_cj :
      (imm : ℕ)
      → imm < 2 ^ 12
      → imm % 2 ≡ 0
      → decode_branch16 iem pc (encode_cj 5 imm) outputs
        ≡ (true, record (reset_info outputs) { target = pc_relative 12 pc imm })
  unfolding decode_c_pop_or_j get_cj_target
  decode_branch16-encode_cj imm hi he =
      let (top, bottom) = cj_fields 5 imm (omega arith) hi in
      rw (
        decode_branch16-c_j _ top,
        bottom,
        extract-cj 5 imm hi he,
        get_target-sign_extend 12 pc imm (omega arith) (omega arith) hi,
      )

  -- C.JAL with an even offset is a call that links to x1 on RV32, and no branch elsewhere.
  pub decode_branch16-encode_c_jal :
      (imm : ℕ)
      → imm < 2 ^ 12
      → imm % 2 ≡ 0
      → decode_branch16 iem pc (encode_cj 1 imm) outputs ≡ (
          if is_rv32 iem
          then (
            true,
            record (reset_info outputs) {
              target = pc_relative 12 pc imm;
              rd = to_gpr 1;
              is_call = true;
            },
          )
          else (false, reset_info outputs))
  unfolding decode_c_jal get_cj_target
  decode_branch16-encode_c_jal imm hi he =
      let (top, bottom) = cj_fields 1 imm (omega arith) hi in
      rw
        (
          decode_branch16-c_jal _ top,
          bottom,
          extract-cj 1 imm hi he,
          get_target-sign_extend 12 pc imm (omega arith) (omega arith) hi,
        )
        (ground arith)

  -- Every C.BEQZ and C.BNEZ with an even offset decodes to its target, a comparison of its
  -- register with x0.
  pub decode_branch16-encode_cb :
      (eq : Bool) (rs1 imm : ℕ)
      → 8 ≤ rs1
      → rs1 < 16
      → imm < 2 ^ 9
      → imm % 2 ≡ 0
      → decode_branch16 iem pc (encode_cb (if eq then 6 else 7) rs1 imm) outputs ≡ (
        true,
        record (reset_info outputs) {
          target = pc_relative 9 pc imm;
          rs1 = to_gpr rs1;
          rs2 = to_gpr 0;
          is_conditional = true;
          compare_eq = eq;
          compare_not_eq = not eq;
        },
      )
  unfolding decode_c_branch
  decode_branch16-encode_cb eq rs1 imm h8 hr hi he =
      let funct3 : ℕ = if eq then 6 else 7 in
      let (top, bottom, source) = cb_fields funct3 rs1 imm (ground arith) h8 hr hi in
      rw (
        decode_branch16-c_branch _ eq top,
        bottom,
        source,
        extract-cb funct3 rs1 imm h8 hr hi he,
        encode_reg_num-to_gpr rs1 (omega arith),
        get_target-sign_extend 9 pc imm (omega arith) (omega arith) hi,
      )

  -- Every C.JR and C.JALR of a register other than x0 decodes to an indirect branch; C.JALR is
  -- a call that links to x1, C.JR through x1 or x5 is a return.
  pub decode_branch16-encode_cr :
      (link rs1 : ℕ)
      → link < 2
      → 0 < rs1
      → rs1 < 32
      → let returns = link == 0 && (rs1 == 5 || rs1 == 1) in
        decode_branch16 iem pc (encode_cr link rs1) outputs ≡ (
          true,
          record (reset_info outputs) {
            rs1 = to_gpr rs1;
            rd =
                if returns
                then to_gpr 0
                else if link == 1
                then to_gpr 1
                else (reset_info outputs).rd;
            is_call = link == 1;
            is_return = returns;
            is_millireturn = link == 0 && rs1 == 5;
            is_indirect = true;
          },
        )
  unfolding decode_c_jr reset_info
  decode_branch16-encode_cr link rs1 hl h0 hr =
      let (top, bottom, source, none2, calls) = cr_fields link rs1 hl hr in
      rw
        (
          decode_branch16-c_jr _ top,
          bottom,
          source,
          none2,
          calls,
          encode_reg_num-to_gpr rs1 (omega arith),
        )
        (ground arith)
