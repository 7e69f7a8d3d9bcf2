-- ===== src/Tests/Trace.antt =====
-- The records of a load, of a taken BEQ and of a JALR, for stf-inc/stf_branch_reader.hpp.
use stf_lib.Common.{
  ◌+◌, ◌-◌, Bool, true, false, ◌≡◌, refl, arith, [], ◌∷◌, ◌++◌, List, Option, some, none, ok, err,
  if◌then◌else◌,
}
use stf_lib.Registers.{reg_source, reg_dest, to_gpr, is_gpr, combine_reg_type, get_reg_type}
use stf_lib.Branch.Decoder.{InstIem, OpcodeRecord, opcode32, initial_info}
use stf_lib.Branch.Item.{StfBranch}
use stf_lib.BranchReader.Waiting.{first_opcode}
use stf_lib.BranchReader.Targets.{read_next_branch-completed}
use stf_lib.PcTracker.{new_tracker, track, force_pc_record}
use stf_lib.PcTracker.Follow.{Instruction, followed, followed-force_pc}
use stf_lib.BranchReader.{
  BranchReaderError, TraceRecord, inst_reg, mem_access, pc_target, opcode, BranchReader,
  read_operand, read_loop, finalize_not_a_branch, new_branch_reader, read_next_branch,
  read_branches,
}
use stf_lib.BranchReader.Numbers.{read_next_branch-numbers}
use stf_lib.BranchReader.Indices.{Consecutive, read_branches-Consecutive}
use stf_lib.BranchReader.Records.{
  Bounded, read_operand-Bounded, IsAt, with_target, behind, read_loop-read_next_branch,
}
use stf_lib.Common.{Result, length}
use stf_lib.Branch.Decoder.{
  get_target, get_cj_target, encode_reg_num, reset_info, decode_c_jal, decode_c_branch, decode_c_jr,
  decode_c_pop_or_j, decode_branch16, decode_conditional, decode_jalr, decode_jal, decode_branch32,
  decode, is_branch,
}
use stf_lib.Branch.Item.{
  clear, add_operand, get_operand, has_operand, size, reset, set_taken, validate_branch_target,
  set_info, set_operand_values, set_index, is_backwards, decode_into,
}
use stf_lib.BranchReader.{
  update_skipping, check_skipping, skipped_branch_cleanup, update_last_branch, reset_operand_maps,
  init_branch_index, x0_operand, add_x0_operands, finish_branch, finalize_branch, read_source,
  read_dest, read_round,
}
use stf_lib.Registers.{to_fpr, to_vector, to_csr, is_nonstandard_csr, is_csr, is_fpr, is_vector}
use stf_lib.ByteUtils.{
  bit_mask, checked_bit_mask, get_arg, extract, get_bit_range, get_bit, sign_extend,
}

abbrev empty_slot : StfBranch
empty_slot = record {
  index = 0;
  unskipped_index = 0;
  skipped = false;
  inst_index = 0;
  unskipped_inst_index = 0;
  pc = 0;
  opcode = 0;
  target_opcode = 0;
  rs1_value = 0;
  rs2_value = 0;
  rd_value = 0;
  taken = false;
  info = initial_info;
}

-- `lw x5, 0(x6)` at 0x1000, `beq x5, x6, 0x1010` at 0x1004, `jalr x1, 0(x5)` at 0x1010.
abbrev load_records : List TraceRecord
load_records =
    inst_reg reg_source (to_gpr 6) 0x2000 ∷ mem_access ∷ inst_reg reg_dest (to_gpr 5) 7 ∷ []

abbrev load : OpcodeRecord
load = opcode32 0x1000 0x00032283

abbrev branch_records : List TraceRecord
branch_records =
    inst_reg reg_source (to_gpr 5) 7
    ∷ inst_reg reg_source (to_gpr 6) 7
    ∷ pc_target 0x1010
    ∷ opcode (opcode32 0x1004 0x00628663)
    ∷ []

abbrev jump_records : List TraceRecord
jump_records =
    inst_reg reg_source (to_gpr 5) 7
    ∷ inst_reg reg_dest (to_gpr 1) 0x1014
    ∷ pc_target 7
    ∷ opcode (opcode32 0x1010 0x000280e7)
    ∷ []

abbrev program : List TraceRecord
program = load_records ++ opcode load ∷ branch_records ++ jump_records

abbrev got : Result BranchReaderError (List StfBranch) → List StfBranch
got (err e) = []
got (ok bs) = bs

abbrev reader : BranchReader
reader = new_branch_reader false

abbrev all_branches : List StfBranch
all_branches = got (read_branches 9 InstIem.rv64 empty_slot reader program)

two_branches : length all_branches ≡ 2
unfolding add_operand add_x0_operands bit_mask check_skipping checked_bit_mask clear
    combine_reg_type decode decode_branch16 decode_branch32 decode_c_branch decode_c_jal decode_c_jr
    decode_c_pop_or_j decode_conditional decode_into decode_jal decode_jalr encode_reg_num extract
    finalize_branch finalize_not_a_branch finish_branch get_arg get_bit get_bit_range get_cj_target
    get_operand get_reg_type get_target has_operand init_branch_index is_backwards is_branch is_csr
    is_fpr is_gpr is_nonstandard_csr is_vector new_branch_reader read_branches read_dest read_loop
    read_next_branch read_operand read_round read_source reset reset_info reset_operand_maps
    set_index set_info set_operand_values set_taken sign_extend size skipped_branch_cleanup to_csr
    to_fpr to_gpr to_vector update_last_branch update_skipping validate_branch_target x0_operand
two_branches = refl

read_branches-Consecutive_example : Consecutive 0 all_branches
unfolding add_operand add_x0_operands bit_mask check_skipping checked_bit_mask clear
    combine_reg_type decode decode_branch16 decode_branch32 decode_c_branch decode_c_jal decode_c_jr
    decode_c_pop_or_j decode_conditional decode_into decode_jal decode_jalr encode_reg_num extract
    finalize_branch finalize_not_a_branch finish_branch get_arg get_bit get_bit_range get_cj_target
    get_operand get_reg_type get_target has_operand init_branch_index is_backwards is_branch is_csr
    is_fpr is_gpr is_nonstandard_csr is_vector new_branch_reader read_branches read_dest read_loop
    read_next_branch read_operand read_round read_source reset reset_info reset_operand_maps
    set_index set_info set_operand_values set_taken sign_extend size skipped_branch_cleanup to_csr
    to_fpr to_gpr to_vector update_last_branch update_skipping validate_branch_target x0_operand
read_branches-Consecutive_example =
    read_branches-Consecutive InstIem.rv64 empty_slot false 9 program all_branches refl

abbrev Next : Type 0
Next = Option StfBranch × BranchReader × List TraceRecord

abbrev next_branch : Result BranchReaderError Next → StfBranch
next_branch (ok (some b, r, left)) = b
next_branch (ok (none, r, left)) = empty_slot
next_branch (err e) = empty_slot

abbrev next_reader : Result BranchReaderError Next → BranchReader
next_reader (ok (next, r, left)) = r
next_reader (err e) = reader

abbrev next_records : Result BranchReaderError Next → List TraceRecord
next_records (ok (next, r, left)) = left
next_records (err e) = []

abbrev first_next : Result BranchReaderError Next
first_next = read_next_branch InstIem.rv64 (empty_slot, reader) program

read_next_branch-numbers_example :
    ((next_branch first_next).unskipped_index ≡ reader.num_branches_read + 1)
    × ((next_branch first_next).index ≡ reader.num_branches_read + 1 - reader.num_skipped_items)
    × ((next_reader first_next).num_branches_read ≡ reader.num_branches_read + 1)
    × ((next_reader first_next).num_skipped_items ≡ (
        if (next_branch first_next).skipped
        then reader.num_skipped_items + 1
        else reader.num_skipped_items))
unfolding add_operand add_x0_operands bit_mask check_skipping checked_bit_mask clear
    combine_reg_type decode decode_branch16 decode_branch32 decode_c_branch decode_c_jal decode_c_jr
    decode_c_pop_or_j decode_conditional decode_into decode_jal decode_jalr encode_reg_num extract
    finalize_branch finalize_not_a_branch finish_branch get_arg get_bit get_bit_range get_cj_target
    get_operand get_reg_type get_target has_operand init_branch_index is_backwards is_branch is_csr
    is_fpr is_gpr is_nonstandard_csr is_vector new_branch_reader read_branches read_dest read_loop
    read_next_branch read_operand read_round read_source reset reset_info reset_operand_maps
    set_index set_info set_operand_values set_taken sign_extend size skipped_branch_cleanup to_csr
    to_fpr to_gpr to_vector update_last_branch update_skipping validate_branch_target x0_operand
read_next_branch-numbers_example =
    read_next_branch-numbers InstIem.rv64 empty_slot (next_branch first_next) reader
      (next_reader first_next) program (next_records first_next) refl

read_operand-Bounded_example :
    (found : Bool × BranchReader) × (read_operand reg_source (to_gpr 5) 7 reader ≡ ok found)
    × Bounded found.1
unfolding new_branch_reader clear
read_operand-Bounded_example =
    read_operand-Bounded reg_source (to_gpr 5) 7 reader (omega arith, omega arith)

-- The load is no branch.
read_loop-read_next_branch_example :
    read_loop InstIem.rv64 true (empty_slot, reader) (load_records ++ opcode load ∷ branch_records)
    ≡ read_next_branch InstIem.rv64 (empty_slot, behind load reader) branch_records
unfolding new_branch_reader
read_loop-read_next_branch_example =
    read_loop-read_next_branch InstIem.rv64 empty_slot reader load_records load branch_records
      (refl, (refl, (refl, tt))) tt

-- The BEQ waits for the JALR at its target.
abbrev beq_reader : BranchReader
beq_reader = next_reader first_next

abbrev second_next : Result BranchReaderError Next
second_next = read_next_branch InstIem.rv64 (empty_slot, beq_reader) jump_records

read_next_branch-completed_example :
    (rec : OpcodeRecord) × (first_opcode jump_records ≡ some rec)
    × IsAt rec beq_reader.last_branch
    × ((next_reader second_next).completed
        ≡ with_target rec beq_reader.last_branch beq_reader.completed)
    × ((next_reader second_next).last_branch
        ≡ (if (next_branch second_next).taken then some (next_branch second_next) else none))
unfolding add_operand add_x0_operands bit_mask check_skipping checked_bit_mask clear
    combine_reg_type decode decode_branch16 decode_branch32 decode_c_branch decode_c_jal decode_c_jr
    decode_c_pop_or_j decode_conditional decode_into decode_jal decode_jalr encode_reg_num extract
    finalize_branch finalize_not_a_branch finish_branch get_arg get_bit get_bit_range get_cj_target
    get_operand get_reg_type get_target has_operand init_branch_index is_backwards is_branch is_csr
    is_fpr is_gpr is_nonstandard_csr is_vector new_branch_reader read_branches read_dest read_loop
    read_next_branch read_operand read_round read_source reset reset_info reset_operand_maps
    set_index set_info set_operand_values set_taken sign_extend size skipped_branch_cleanup to_csr
    to_fpr to_gpr to_vector update_last_branch update_skipping validate_branch_target x0_operand
read_next_branch-completed_example =
    read_next_branch-completed InstIem.rv64 empty_slot (next_branch second_next) beq_reader
      (next_reader second_next) jump_records (next_records second_next) refl

-- Two instructions, the second with a target, and the one at the target, at an offset of 16.
abbrev three_instructions : List Instruction
three_instructions =
    record { targets = []; size = 4 }
    ∷ record { targets = 0x2000 ∷ []; size = 2 }
    ∷ record { targets = []; size = 4 }
    ∷ []

followed-force_pc_example :
    followed (track (new_tracker 0 16) (force_pc_record 0x1000)) three_instructions
    ≡ 0x1010 ∷ 0x1014 ∷ 0x2010 ∷ []
unfolding new_tracker
followed-force_pc_example = followed-force_pc three_instructions (new_tracker 0 16) 0x1000 refl
