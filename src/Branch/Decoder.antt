-- ===== src/Branch/Decoder.antt =====
-- stf-inc/stf_branch_decoder.hpp: which opcodes are branches, and what a branch does.
-- The reference parameters of the C++ functions are the fields of `BranchInfo`; a function returns
-- its Boolean with their new values. `pc` and `opcode` are bit patterns, as is an STF_REG.
use stf_lib.Common.{ℕ, ◌+◌, ◌%◌, ◌^◌, Bool, true, false, not, ◌&&◌, ◌||◌, ◌==◌, if◌then◌else◌}
use stf_lib.Common.{List, [], ◌∷◌}
use stf_lib.ByteUtils.{BitArg, bit, bit_range, extract, get_bit, get_bit_range, sign_extend}
use stf_lib.Registers.{combine_reg_type, type_integer, reg_x0, reg_x1, reg_x5, reg_invalid}

-- INST_IEM of stf-inc/stf_enums.hpp.
pub data InstIem : Type 0 where
  invalid rv32 rv64 reserved : InstIem

pub record BranchInfo : Type 0 where
  pub target : ℕ
  pub rs1 : ℕ
  pub rs2 : ℕ
  pub rd : ℕ
  pub compressed : Bool
  pub is_conditional : Bool
  pub is_call : Bool
  pub is_return : Bool
  pub is_millicall : Bool
  pub is_millireturn : Bool
  pub is_indirect : Bool
  pub compare_eq : Bool
  pub compare_not_eq : Bool
  pub compare_greater_than_or_equal : Bool
  pub compare_less_than : Bool
  pub compare_unsigned : Bool

-- `getTarget_`: the sum of two 64-bit patterns.
unfoldable pub get_target : ℕ → ℕ → ℕ
get_target pc offset = (pc + offset) % 2 ^ 64

abbrev pub cj_args : List BitArg
cj_args =
    bit 12 11
    ∷ bit 8 10
    ∷ bit 10 9
    ∷ bit 9 8
    ∷ bit 6 7
    ∷ bit 7 6
    ∷ bit 2 5
    ∷ bit 11 4
    ∷ bit_range 5 3 3
    ∷ []

-- `getCJTarget_`
unfoldable pub get_cj_target : ℕ → ℕ → ℕ
get_cj_target pc opcode = get_target pc (sign_extend 12 (extract 16 cj_args opcode))

-- `encodeRegNum_`; the cast to STF_REG_packed_int keeps 16 bits.
unfoldable pub encode_reg_num : ℕ → ℕ
encode_reg_num reg_num = combine_reg_type (reg_num % 2 ^ 16) type_integer

-- The assignments at the head of both decoders; `compressed` is set by the caller.
unfoldable pub reset_info : BranchInfo → BranchInfo
reset_info info = record {
  target = 0;
  rs1 = reg_invalid;
  rs2 = reg_invalid;
  rd = reg_invalid;
  compressed = info.compressed;
  is_conditional = false;
  is_call = false;
  is_return = false;
  is_millicall = false;
  is_millireturn = false;
  is_indirect = false;
  compare_eq = false;
  compare_not_eq = false;
  compare_greater_than_or_equal = false;
  compare_less_than = false;
  compare_unsigned = false;
}

abbrev pub is_rv32 : InstIem → Bool
is_rv32 InstIem.rv32 = true
is_rv32 _ = false

-- The cases of the switch of `decodeBranch16_`, on the reset outputs.
-- case 0b001: C.JAL, which only RV32 has.
unfoldable pub decode_c_jal : InstIem → ℕ → ℕ → ℕ → BranchInfo → Bool × BranchInfo
decode_c_jal iem pc opcode opcode_bottom info =
    if not (opcode_bottom == 1) || not (is_rv32 iem)
    then (false, info)
    else (true, record info { target = get_cj_target pc opcode; rd = reg_x1; is_call = true })

abbrev pub cb_args : List BitArg
cb_args = bit 12 8 ∷ bit 6 7 ∷ bit 5 6 ∷ bit 2 5 ∷ bit_range 11 10 4 ∷ bit_range 4 3 2 ∷ []

-- cases 0b110 and 0b111: C.BEQZ falls through to C.BNEZ with `compare_eq` set.
unfoldable pub decode_c_branch : Bool → ℕ → ℕ → ℕ → BranchInfo → Bool × BranchInfo
decode_c_branch eq pc opcode opcode_bottom info =
    if not (opcode_bottom == 1) then (false, record info { compare_eq = false }) else (
      true,
      record info {
        compare_eq = eq;
        compare_not_eq = not eq;
        target = get_target pc (sign_extend 9 (extract 16 cb_args opcode));
        rs1 = encode_reg_num (get_bit_range 16 9 7 2 opcode + 8);
        rs2 = reg_x0;
        is_conditional = true;
      },
    )

-- case 0b100: C.JR and C.JALR.
unfoldable pub decode_c_jr : ℕ → ℕ → BranchInfo → Bool × BranchInfo
decode_c_jr opcode opcode_bottom info =
    let rs1_num = get_bit_range 16 11 7 4 opcode in
    let rs2_num = get_bit_range 16 6 2 4 opcode in
    let is_call = not (get_bit 16 12 opcode == 0) in
    let is_millireturn = rs1_num == 5 in
    let is_return = is_millireturn || rs1_num == 1 in
    if not (opcode_bottom == 2) || rs1_num == 0 || not (rs2_num == 0)
    then (false, info)
    else if is_call
    then (
      true,
      record info { is_call = true; rd = reg_x1; is_indirect = true; rs1 = encode_reg_num rs1_num },
    )
    else (
      true,
      record info {
        is_call = false;
        is_millireturn = is_millireturn;
        is_return = is_return;
        rd = if is_return then reg_x0 else info.rd;
        is_indirect = true;
        rs1 = encode_reg_num rs1_num;
      },
    )

-- case 0b101: CM.POPRET, CM.POPRETZ and C.J.
unfoldable pub decode_c_pop_or_j : ℕ → ℕ → ℕ → BranchInfo → Bool × BranchInfo
decode_c_pop_or_j pc opcode opcode_bottom info =
    let funct = get_bit_range 16 12 8 4 opcode in
    if opcode_bottom == 2
    then (if not (funct == 0b11100) && not (funct == 0b11110) then (false, info) else (
      true,
      record info { is_indirect = true; is_return = true; rs1 = reg_x1; rd = reg_x0 },
    ))
    else if not (opcode_bottom == 1)
    then (false, info)
    else (true, record info { target = get_cj_target pc opcode })

-- `decodeBranch16_`
unfoldable pub decode_branch16 : InstIem → ℕ → ℕ → BranchInfo → Bool × BranchInfo
decode_branch16 iem pc opcode outputs =
    let opcode_top = get_bit_range 16 15 13 2 opcode in
    let opcode_bottom = get_bit_range 16 1 0 1 opcode in
    let info = reset_info outputs in
    if opcode_top == 0b001
    then decode_c_jal iem pc opcode opcode_bottom info
    else if opcode_top == 0b110
    then decode_c_branch true pc opcode opcode_bottom info
    else if opcode_top == 0b111
    then decode_c_branch false pc opcode opcode_bottom info
    else if opcode_top == 0b100
    then decode_c_jr opcode opcode_bottom info
    else if opcode_top == 0b101
    then decode_c_pop_or_j pc opcode opcode_bottom info
    else (false, info)

abbrev pub b_args : List BitArg
b_args = bit 31 12 ∷ bit 7 11 ∷ bit_range 30 25 10 ∷ bit_range 11 8 4 ∷ []

abbrev pub j_args : List BitArg
j_args = bit 31 20 ∷ bit_range 19 12 19 ∷ bit 20 11 ∷ bit_range 30 21 10 ∷ []

-- The cases of the switch of `decodeBranch32_`.
-- case 0b000: a conditional branch.
unfoldable pub decode_conditional : ℕ → ℕ → BranchInfo → BranchInfo
decode_conditional pc opcode info =
    let eq_ne_lt_ge = not (get_bit 32 14 opcode == 0) in
    let pos_neg = not (get_bit 32 12 opcode == 0) in
    record info {
      target = get_target pc (sign_extend 13 (extract 32 b_args opcode));
      compare_eq = not eq_ne_lt_ge && not pos_neg;
      compare_not_eq = not eq_ne_lt_ge && pos_neg;
      compare_greater_than_or_equal = eq_ne_lt_ge && pos_neg;
      compare_less_than = eq_ne_lt_ge && not pos_neg;
      compare_unsigned = not (get_bit 32 13 opcode == 0);
      rs1 = encode_reg_num (get_bit_range 32 19 15 4 opcode);
      rs2 = encode_reg_num (get_bit_range 32 24 20 4 opcode);
      is_conditional = true;
    }

-- case 0b001: JALR.
unfoldable pub decode_jalr : ℕ → BranchInfo → BranchInfo
decode_jalr opcode info =
    let rs1 = encode_reg_num (get_bit_range 32 19 15 4 opcode) in
    let rd = encode_reg_num (get_bit_range 32 11 7 4 opcode) in
    let is_millicall = rd == reg_x5 in
    let possible_return = not (rs1 == rd) in
    let is_millireturn = possible_return && rs1 == reg_x5 in
    record info {
      rs1 = rs1;
      rd = rd;
      is_millicall = is_millicall;
      is_call = is_millicall || rd == reg_x1;
      is_millireturn = is_millireturn;
      is_return = is_millireturn || (possible_return && rs1 == reg_x1);
      is_indirect = true;
    }

-- case 0b011: JAL.
unfoldable pub decode_jal : ℕ → ℕ → BranchInfo → BranchInfo
decode_jal pc opcode info =
    let rd = encode_reg_num (get_bit_range 32 11 7 4 opcode) in
    let is_millicall = rd == reg_x5 in
    record info {
      target = get_target pc (sign_extend 21 (extract 32 j_args opcode));
      rd = rd;
      is_millicall = is_millicall;
      is_call = is_millicall || rd == reg_x1;
    }

-- `decodeBranch32_`; the first exit leaves the outputs as they are.
unfoldable pub decode_branch32 : ℕ → ℕ → BranchInfo → Bool × BranchInfo
decode_branch32 pc opcode outputs =
    let opcode_top = get_bit_range 32 6 5 1 opcode in
    let opcode_bottom = get_bit_range 32 4 2 2 opcode in
    let info = reset_info outputs in
    if not (opcode_top == 0b11)
    then (false, outputs)
    else if opcode_bottom == 0b000
    then (true, decode_conditional pc opcode info)
    else if opcode_bottom == 0b001
    then (true, decode_jalr opcode info)
    else if opcode_bottom == 0b011
    then (true, decode_jal pc opcode info)
    else (false, info)

-- InstOpcode16Record and InstOpcode32Record: the PC of an instruction with its opcode.
pub data OpcodeRecord : Type 0 where
  opcode16 : ℕ → ℕ → OpcodeRecord
  opcode32 : ℕ → ℕ → OpcodeRecord

-- `decode(iem, rec, target, ...)`, through the overloads of `decodeBranch_`.
unfoldable pub decode : InstIem → OpcodeRecord → BranchInfo → Bool × BranchInfo
decode iem (opcode16 pc opcode) info =
    decode_branch16 iem pc opcode (record info { compressed = true })
decode iem (opcode32 pc opcode) info =
    decode_branch32 pc opcode (record info { compressed = false })

-- What `isBranch` starts from.
abbrev pub initial_info : BranchInfo
initial_info = record {
  target = 0;
  rs1 = reg_invalid;
  rs2 = reg_invalid;
  rd = reg_invalid;
  compressed = false;
  is_conditional = false;
  is_call = false;
  is_return = false;
  is_millicall = false;
  is_millireturn = false;
  is_indirect = false;
  compare_eq = false;
  compare_not_eq = false;
  compare_greater_than_or_equal = false;
  compare_less_than = false;
  compare_unsigned = false;
}

unfoldable pub is_branch : InstIem → OpcodeRecord → Bool
is_branch iem rec = (decode iem rec initial_info).0
