-- ===== src/BranchReader.antt =====
-- stf-inc/stf_branch_reader.hpp, with the skipping state of
-- stf-inc/stf_user_mode_skipping_reader.hpp: how the records of a trace become branches.
-- The records are those that the loop looks at; the stream counts an instruction when it reads an
-- opcode record. Counters are not wrapped at 64 bits.
pub mod Numbers
pub mod Indices
pub mod Records
pub mod Waiting
pub mod Targets
use stf_lib.Common.{
  ℕ, zero, suc, ◌+◌, ◌-◌, Bool, true, false, not, ◌&&◌, ◌||◌, ltb, leb, ◌==◌, if◌then◌else◌,
}
use stf_lib.Common.{Result, ok, err, assert, ◌>>=◌, ◌>>◌, Option, none, some, List, [], ◌∷◌, ◌++◌}
use stf_lib.Registers.{reg_x0, reg_state, reg_source, reg_dest, is_gpr}
use stf_lib.Branch.Decoder.{InstIem, OpcodeRecord, initial_info}
use stf_lib.Branch.Item.{
  BranchError, OperandMap, StfBranch, add_operand, has_operand, clear, reset, set_taken,
  set_operand_values, set_index, decode_into, record_pc, record_opcode, size,
}

pub data TraceRecord : Type 0 where
  event : (is_mode_change is_change_to_user : Bool) → TraceRecord
  inst_reg : (operand_type reg value : ℕ) → TraceRecord
  mem_access : TraceRecord
  pc_target : ℕ → TraceRecord
  opcode : OpcodeRecord → TraceRecord
  other_record : TraceRecord

pub data BranchReaderError : Type 0 where
  branch_error : BranchError → BranchReaderError
  wrong_target taken_without_branch : BranchReaderError

-- The members of STFBranchReaderBase, of STFUserModeSkippingReader and of STFBufferedReader that
-- `readNext_` uses. `last_branch` is the item that `last_branch_` points to, and `completed` has
-- the items that were completed through that pointer.
pub record BranchReader : Type 0 where
  pub only_user_mode : Bool
  pub skipping_enabled : Bool
  pub disable_skipping_on_next_item : Bool
  pub num_skipped_items : ℕ
  pub num_branches_read : ℕ
  pub num_skipped_insts : ℕ
  pub num_insts_read : ℕ
  pub last_branch : Option StfBranch
  pub completed : List StfBranch
  pub src_operands : OperandMap
  pub dest_operands : OperandMap

unfoldable pub new_branch_reader : Bool → BranchReader
new_branch_reader only_user_mode = record {
  only_user_mode = only_user_mode;
  skipping_enabled = false;
  disable_skipping_on_next_item = false;
  num_skipped_items = 0;
  num_branches_read = 0;
  num_skipped_insts = 0;
  num_insts_read = 0;
  last_branch = none;
  completed = [];
  src_operands = clear;
  dest_operands = clear;
}

-- `updateSkipping_`
unfoldable pub update_skipping : BranchReader → BranchReader
update_skipping r =
    if r.disable_skipping_on_next_item
    then record r { skipping_enabled = false; disable_skipping_on_next_item = false }
    else r

-- `checkSkipping_`
unfoldable pub check_skipping : Bool → Bool → BranchReader → BranchReader
check_skipping is_mode_change is_change_to_user r =
    if is_mode_change && r.only_user_mode
    then record r {
      disable_skipping_on_next_item = r.disable_skipping_on_next_item || is_change_to_user;
      skipping_enabled = r.skipping_enabled || not is_change_to_user;
    }
    else r

-- `skippedCleanup_`
unfoldable pub skipped_branch_cleanup : BranchReader → BranchReader
skipped_branch_cleanup r = record r { last_branch = none }

-- `updateLastBranch_`
unfoldable pub update_last_branch :
    OpcodeRecord → BranchReader → Result BranchReaderError BranchReader
update_last_branch rec r = elim (r.last_branch) [
  | none ↦ ok r
  | some branch ↦
      assert (branch.info.target == record_pc rec) wrong_target
      >> ok (record r {
        last_branch = none;
        completed = record branch { target_opcode = record_opcode rec } ∷ r.completed;
      })
]

-- `resetOperandMaps_`
unfoldable pub reset_operand_maps : BranchReader → BranchReader
reset_operand_maps r = record r { src_operands = clear; dest_operands = clear }

-- `countSkippedInst_`
abbrev pub count_skipped_inst : Bool → BranchReader → BranchReader
count_skipped_inst skip_item r = record r {
  num_skipped_insts = if skip_item then r.num_skipped_insts + 1 else r.num_skipped_insts;
}

-- `initItemIndex_`
unfoldable pub init_branch_index : BranchReader → StfBranch → StfBranch
init_branch_index r item =
    set_index item (r.num_branches_read - r.num_skipped_items) r.num_branches_read
      (r.num_insts_read - r.num_skipped_insts) r.num_insts_read

-- What `branch`, the item being read, and the reader become.
abbrev pub PartialBranch : Type 0
PartialBranch = StfBranch × BranchReader

-- `finalizeNotABranch_`
unfoldable pub finalize_not_a_branch :
    OpcodeRecord → PartialBranch → Result BranchReaderError PartialBranch
finalize_not_a_branch rec (branch, r) = do
  r' ← update_last_branch rec r
  ok (
    reset branch,
    reset_operand_maps (update_skipping (count_skipped_inst r'.skipping_enabled r')),
  )

abbrev pub from_branch {ℓ} : {A : Type ℓ} → Result BranchError A → Result BranchReaderError A
from_branch (err e) = err (branch_error e)
from_branch (ok a) = ok a

-- The operand maps in `finalizeBranch_`: the trace may have no records of x0.
unfoldable pub x0_operand : Bool → OperandMap → Result BranchError OperandMap
x0_operand uses_x0 operands =
    if uses_x0 && not (has_operand operands reg_x0)
    then add_operand operands reg_x0 0
    else ok operands

unfoldable pub add_x0_operands : StfBranch → BranchReader → Result BranchError BranchReader
add_x0_operands branch r = do
  src ← x0_operand (branch.info.rs1 == reg_x0 || branch.info.rs2 == reg_x0) r.src_operands
  dest ← x0_operand (branch.info.rd == reg_x0) r.dest_operands
  ok (record r { src_operands = src; dest_operands = dest })

-- The end of `finalizeBranch_`, for an instruction that is a branch.
unfoldable pub finish_branch : Bool → StfBranch → BranchReader → Result BranchError PartialBranch
finish_branch skip_item branch r = do
  r1 ← add_x0_operands branch r
  valued ← set_operand_values branch r1.src_operands r1.dest_operands
  let r2 : BranchReader = record r1 { num_branches_read = r1.num_branches_read + 1 }
  let indexed : StfBranch = record (init_branch_index r2 valued) { skipped = skip_item }
  let r3 : BranchReader = record r2 {
    num_skipped_items = if skip_item then r2.num_skipped_items + 1 else r2.num_skipped_items;
  }
  ok (indexed, if indexed.taken then record r3 { last_branch = some indexed } else r3)

-- `finalizeBranch_`
unfoldable pub finalize_branch :
    InstIem → OpcodeRecord → PartialBranch → Result BranchReaderError (Bool × PartialBranch)
finalize_branch iem rec (branch, r) = do
  r1 ← update_last_branch rec r
  let skip_item = r1.skipping_enabled
  let r2 : BranchReader = count_skipped_inst skip_item r1
  (found, decoded) ← from_branch (decode_into iem rec branch)
  (if found
      then (from_branch (finish_branch skip_item decoded r2) >>= λ reading. ok (true, reading))
      else (assert (not decoded.taken) taken_without_branch
          >> ok (false, (reset decoded, reset_operand_maps r2))))

-- The operands of an instruction that may be a branch; the Boolean is `not_a_branch`.
unfoldable pub read_source : ℕ → ℕ → BranchReader → Result BranchError (Bool × BranchReader)
read_source reg value r =
    if leb 2 (size r.src_operands)
    then ok (true, r)
    else (add_operand r.src_operands reg value >>= λ src.
        ok (false, record r { src_operands = src }))

unfoldable pub read_dest : ℕ → ℕ → BranchReader → Result BranchError (Bool × BranchReader)
read_dest reg value r =
    if ltb 0 (size r.dest_operands)
    then ok (true, r)
    else (add_operand r.dest_operands reg value >>= λ dest.
        ok (false, record r { dest_operands = dest }))

-- An STF_INST_REG record of an instruction that may be a branch.
unfoldable pub read_operand : ℕ → ℕ → ℕ → BranchReader → Result BranchError (Bool × BranchReader)
read_operand operand_type reg value r =
    if operand_type == reg_state
    then ok (false, r)
    else if not (is_gpr reg)
    then ok (true, r)
    else if operand_type == reg_source
    then read_source reg value r
    else if operand_type == reg_dest
    then read_dest reg value r
    else ok (false, r)

-- What a round of the loop of `readNext_` leaves: whether it ends, `not_a_branch`, and the rest.
abbrev pub Round : Type 0
Round = Bool × Bool × PartialBranch

-- A round of the loop, on the record that `readRecord_` returns.
unfoldable pub read_round :
    InstIem → Bool → PartialBranch → TraceRecord → Result BranchReaderError Round
read_round iem not_a_branch (branch, r) (event is_mode_change is_change_to_user) =
    ok (false, true, (branch, check_skipping is_mode_change is_change_to_user r))
read_round iem true (branch, r) (opcode rec) =
    let counted : BranchReader = record r { num_insts_read = r.num_insts_read + 1 } in
    finalize_not_a_branch rec (branch, counted) >>= λ reading. ok (false, false, reading)
read_round iem true reading (inst_reg operand_type reg value) = ok (false, true, reading)
read_round iem true reading mem_access = ok (false, true, reading)
read_round iem true reading (pc_target target) = ok (false, true, reading)
read_round iem true reading other_record = ok (false, true, reading)
read_round iem false (branch, r) (inst_reg operand_type reg value) =
    from_branch (read_operand operand_type reg value r) >>= λ (flagged, r').
    ok (false, flagged, (branch, r'))
read_round iem false (branch, r) (opcode rec) =
    let counted : BranchReader = record r { num_insts_read = r.num_insts_read + 1 } in
    finalize_branch iem rec (branch, counted) >>= λ (found, reading). ok (found, false, reading)
read_round iem false reading mem_access = ok (false, true, reading)
read_round iem false (branch, r) (pc_target target) =
    ok (false, false, (set_taken branch target, r))
read_round iem false reading other_record = ok (false, false, reading)

-- The loop of `readNext_` on the records that are left: the branch, if there is one before the end
-- of the trace, the reader, and the records after it.
unfoldable pub read_loop :
    InstIem
    → Bool
    → PartialBranch
    → List TraceRecord
    → Result BranchReaderError (Option StfBranch × BranchReader × List TraceRecord)
read_loop iem not_a_branch (branch, r) [] = ok (none, r, [])
read_loop iem not_a_branch reading (rec ∷ records) =
    read_round iem not_a_branch reading rec >>= λ (found, flagged, reading').
    (if found
      then ok (some reading'.0, reading'.1, records)
      else read_loop iem flagged reading' records)

-- `readNext_`
unfoldable pub read_next_branch :
    InstIem
    → PartialBranch
    → List TraceRecord
    → Result BranchReaderError (Option StfBranch × BranchReader × List TraceRecord)
read_next_branch iem (branch, r) records =
    read_loop iem false (reset branch, update_skipping (reset_operand_maps r)) records

-- The first `count` items that the buffer reads, or all items if there are fewer: each is read into
-- an item `slot`, and `skippedItemCleanup_` follows a skipped one. They are as `readNext_` returns
-- them; the target opcode that a later call writes into one is in `completed`.
unfoldable pub read_branches :
    ℕ
    → InstIem
    → StfBranch
    → BranchReader
    → List TraceRecord
    → Result BranchReaderError (List StfBranch)
read_branches zero iem slot r records = ok []
read_branches (suc count) iem slot r records =
    read_next_branch iem (slot, r) records >>= λ (next, r', left). elim next [
      | none ↦ ok []
      | some b ↦
          (read_branches count iem slot (if b.skipped then skipped_branch_cleanup r' else r') left
            >>= λ rest. ok (b ∷ rest))
    ]
