-- ===== src/Branch/Item.antt =====
-- stf-inc/stf_branch.hpp: the STFBranch that a branch reader hands out, and the operand map that
-- it is filled from. A failed assertion is an `err`; its message is not modelled.
use stf_lib.Common.{ℕ, ◌+◌, Bool, true, false, not, ◌&&◌, ◌||◌, ltb, leb, ◌==◌, if◌then◌else◌}
use stf_lib.Common.{Result, ok, assert, ◌>>=◌, ◌>>◌}
use stf_lib.Registers.{reg_invalid}
use stf_lib.Branch.Decoder.{
  BranchInfo, InstIem, OpcodeRecord, opcode16, opcode32, decode, initial_info,
}

pub data BranchError : Type 0 where
  third_source invalid_register : BranchError
  indirect_conditional call_conditional return_conditional : BranchError
  indirect_without_target target_mismatch : BranchError

pub record RegPair : Type 0 where
  pub reg : ℕ
  pub val : ℕ

-- `std::array<RegPair, 2> regs_` is `first` and `second`.
pub record OperandMap : Type 0 where
  pub wr_index : ℕ
  pub first : RegPair
  pub second : RegPair

abbrev pub empty_pair : RegPair
empty_pair = record { reg = reg_invalid; val = 0 }

-- `clear`, and the state of a new map.
unfoldable pub clear : OperandMap
clear = record { wr_index = 0; first = empty_pair; second = empty_pair }

unfoldable pub add_operand : OperandMap → ℕ → ℕ → Result BranchError OperandMap
add_operand m reg_num val =
    let pair : RegPair = record { reg = reg_num; val = val } in
    assert (ltb m.wr_index 2) third_source
    >> (if m.wr_index == 0
        then ok (record m { wr_index = m.wr_index + 1; first = pair })
        else ok (record m { wr_index = m.wr_index + 1; second = pair }))

unfoldable pub get_operand : OperandMap → ℕ → Result BranchError ℕ
get_operand m reg_num =
    assert (not (reg_num == reg_invalid)) invalid_register
    >> ok (
        if m.first.reg == reg_num
        then m.first.val
        else if m.second.reg == reg_num
        then m.second.val
        else 0)

unfoldable pub has_operand : OperandMap → ℕ → Bool
has_operand m reg_num = m.first.reg == reg_num || m.second.reg == reg_num

unfoldable pub size : OperandMap → ℕ
size m = m.wr_index

-- The members of STFBranch and of its bases STFSkippableItem and STFItem. The comparison and kind
-- flags, the registers and `compressed_` are in `info`; its `target` is `target_`.
pub record StfBranch : Type 0 where
  pub index : ℕ
  pub unskipped_index : ℕ
  pub skipped : Bool
  pub inst_index : ℕ
  pub unskipped_inst_index : ℕ
  pub pc : ℕ
  pub opcode : ℕ
  pub target_opcode : ℕ
  pub rs1_value : ℕ
  pub rs2_value : ℕ
  pub rd_value : ℕ
  pub taken : Bool
  pub info : BranchInfo

-- `reset_`: the indices other than `index_` stay.
unfoldable pub reset : StfBranch → StfBranch
reset b = record b {
  index = 0;
  skipped = false;
  pc = 0;
  opcode = 0;
  target_opcode = 0;
  rs1_value = 0;
  rs2_value = 0;
  rd_value = 0;
  taken = false;
  info = initial_info;
}

-- `setTaken_`
unfoldable pub set_taken : StfBranch → ℕ → StfBranch
set_taken b target = record b { taken = true; info = record (b.info) { target = target } }

-- `validateBranchTarget_`
unfoldable pub validate_branch_target : StfBranch → ℕ → Bool → Result BranchError ℕ
validate_branch_target b target is_indirect =
    let recorded = b.info.target in
    if is_indirect
    then (assert (not (recorded == 0)) indirect_without_target >> ok recorded)
    else (assert (not b.taken || recorded == target) target_mismatch >> ok target)

-- `setInfo_`
unfoldable pub set_info : StfBranch → ℕ → ℕ → BranchInfo → Result BranchError StfBranch
set_info b pc opcode info = do
  assert (not (info.is_conditional && info.is_indirect)) indirect_conditional
  assert (not (info.is_conditional && info.is_call)) call_conditional
  assert (not (info.is_conditional && info.is_return)) return_conditional
  target ← validate_branch_target (record b { pc = pc }) info.target info.is_indirect
  ok (record b { pc = pc; opcode = opcode; info = record info { target = target } })

-- `setOperandValues_`
unfoldable pub set_operand_values :
    StfBranch → OperandMap → OperandMap → Result BranchError StfBranch
set_operand_values b sources dests = do
  rs1_value ← if b.info.rs1 == reg_invalid then ok b.rs1_value else get_operand sources b.info.rs1
  rs2_value ←
      if b.info.rs1 == reg_invalid || b.info.rs2 == reg_invalid
      then ok b.rs2_value
      else get_operand sources b.info.rs2
  rd_value ← if b.info.rd == reg_invalid then ok b.rd_value else get_operand dests b.info.rd
  ok (record b { rs1_value = rs1_value; rs2_value = rs2_value; rd_value = rd_value })

-- `setIndex_`
unfoldable pub set_index : StfBranch → ℕ → ℕ → ℕ → ℕ → StfBranch
set_index b index unskipped_index inst_index unskipped_inst_index = record b {
  index = index;
  unskipped_index = unskipped_index;
  inst_index = inst_index;
  unskipped_inst_index = unskipped_inst_index;
}

-- `isBackwards`
unfoldable pub is_backwards : StfBranch → Bool
is_backwards b = leb b.info.target b.pc

abbrev pub record_pc : OpcodeRecord → ℕ
record_pc (opcode16 pc opcode) = pc
record_pc (opcode32 pc opcode) = pc

abbrev pub record_opcode : OpcodeRecord → ℕ
record_opcode (opcode16 pc opcode) = opcode
record_opcode (opcode32 pc opcode) = opcode

-- `STFBranchDecoder::decode(iem, rec, branch)`: the branch is written only if there is one.
unfoldable pub decode_into :
    InstIem → OpcodeRecord → StfBranch → Result BranchError (Bool × StfBranch)
decode_into iem rec b =
    let (found, info) = decode iem rec initial_info in
    if found
    then (set_info b (record_pc rec) (record_opcode rec) info >>= λ b'. ok (true, b'))
    else ok (false, b)
