-- ===== src/BranchReader/Records.antt =====
-- stf-inc/stf_branch_reader.hpp: which records the loop of `readNext_` uses.
use stf_lib.Common.{ℕ, ◌+◌, ◌≤◌, Bool, true, false, not, ltb, leb, ◌==◌, if◌then◌else◌}
use stf_lib.Common.{Result, ok, List, [], ◌∷◌, ◌++◌, All}
use stf_lib.Common.{◌≡◌, refl, arith, sym, ap, Option, none, some, ==_iff}
use stf_lib.Common.{lt→ltb, Bool-cases, inl, inr, ◌<◌}
use stf_lib.Registers.{is_gpr, reg_state, reg_source, reg_dest}
use stf_lib.Branch.Decoder.{InstIem, OpcodeRecord}
use stf_lib.Branch.Item.{
  BranchError, StfBranch, OperandMap, add_operand, size, reset, record_pc, record_opcode,
}
use stf_lib.BranchReader.{
  TraceRecord, event, inst_reg, mem_access, pc_target, opcode, other_record, BranchReader,
  read_source, read_dest, read_operand, read_round, read_loop, finalize_not_a_branch,
  read_next_branch, update_last_branch, update_skipping, reset_operand_maps,
}

-- The operand maps of an instruction that may be a branch.
abbrev pub Bounded : BranchReader → Type 0
Bounded r = (r.src_operands.wr_index ≤ 2) × (r.dest_operands.wr_index ≤ 1)

abbrev Yields : Result BranchError (Bool × BranchReader) → Type 0
Yields m = (found : Bool × BranchReader) × (m ≡ ok found) × Bounded found.1

Yields-if :
    (b : Bool) {m n : Result BranchError (Bool × BranchReader)}
    → Yields m
    → Yields n
    → Yields (if b then m else n)
Yields-if true h k = h
Yields-if false h k = k

add_operand_fits :
    (m : OperandMap) (reg value : ℕ)
    → m.wr_index < 2
    → (m' : OperandMap) × (add_operand m reg value ≡ ok m') × (m'.wr_index ≡ m.wr_index + 1)
unfolding add_operand
add_operand_fits m reg value fits =
    rw (lt→ltb m.wr_index 2 fits) (elim (Bool-cases (m.wr_index == 0)) [
      | inl first ↦ rw first (_, refl, refl)
      | inr later ↦ rw later (_, refl, refl)
    ])

read_source-Yields :
    (reg value : ℕ) (r : BranchReader) → Bounded r → Yields (read_source reg value r)
unfolding read_source size
read_source-Yields reg value r (sources, dests) =
    elim (Bool-cases (leb 2 r.src_operands.wr_index)) [
      | inl full ↦ rw full ((true, r), refl, (sources, dests))
      | inr room ↦
          let (m', added, more) =
            add_operand_fits r.src_operands reg value (ground (arith, room)) in
          rw (room, added)
            ((false, record r { src_operands = m' }), refl, (ground (arith, room, more), dests))
    ]

read_dest-Yields : (reg value : ℕ) (r : BranchReader) → Bounded r → Yields (read_dest reg value r)
unfolding read_dest size
read_dest-Yields reg value r (sources, dests) = elim (Bool-cases (ltb 0 r.dest_operands.wr_index)) [
  | inl full ↦ rw full ((true, r), refl, (sources, dests))
  | inr room ↦
      let (m', added, more) = add_operand_fits r.dest_operands reg value (ground (arith, room)) in
      rw (room, added)
        ((false, record r { dest_operands = m' }), refl, (sources, ground (arith, room, more)))
]

-- If the operand maps have at most two sources and one destination, an STF_INST_REG record is
-- read without an error and the maps keep these bounds.
pub read_operand-Bounded :
    (operand_type reg value : ℕ) (r : BranchReader)
    → Bounded r
    → (found : Bool × BranchReader) × (read_operand operand_type reg value r ≡ ok found)
      × Bounded found.1
unfolding read_operand
read_operand-Bounded operand_type reg value r h =
    Yields-if (operand_type == reg_state) ((false, r), refl, h)
      (Yields-if (not (is_gpr reg)) ((true, r), refl, h)
        (Yields-if (operand_type == reg_source) (read_source-Yields reg value r h) (
          Yields-if (operand_type == reg_dest) (read_dest-Yields reg value r h)
            ((false, r), refl, h))))

abbrev pub plain : TraceRecord → Bool
plain (event is_mode_change is_change_to_user) = false
plain (opcode rec) = false
plain (inst_reg operand_type reg value) = true
plain mem_access = true
plain (pc_target target) = true
plain other_record = true

-- A branch that waits for the instruction at its target finds it, and has its opcode then.
abbrev pub IsAt : OpcodeRecord → Option StfBranch → Type 0
IsAt rec none = Unit
IsAt rec (some last) = last.info.target ≡ record_pc rec

abbrev pub with_target : OpcodeRecord → Option StfBranch → List StfBranch → List StfBranch
with_target rec none completed = completed
with_target rec (some last) completed =
    record last { target_opcode = record_opcode rec } ∷ completed

-- A reader behind an instruction that is no branch: it is counted, and nothing else is known of it.
abbrev pub behind : OpcodeRecord → BranchReader → BranchReader
behind rec r = record r {
  num_insts_read = r.num_insts_read + 1;
  num_skipped_insts = if r.skipping_enabled then r.num_skipped_insts + 1 else r.num_skipped_insts;
  last_branch = none;
  completed = with_target rec r.last_branch r.completed;
}

update_last_branch-with_target :
    (rec : OpcodeRecord) (r : BranchReader) (o : Option StfBranch)
    → r.last_branch ≡ o
    → IsAt rec o
    → update_last_branch rec r
      ≡ ok (record r { last_branch = none; completed = with_target rec o r.completed })
unfolding update_last_branch
update_last_branch-with_target rec r none e at = rw e refl
update_last_branch-with_target rec r (some last) e at =
    let same : (last.info.target == record_pc rec) ≡ true = (==_iff _ _).1 at in rw e (rw same refl)

update_skipping-reset_operand_maps :
    (r : BranchReader)
    → update_skipping (reset_operand_maps r) ≡ reset_operand_maps (update_skipping r)
unfolding update_skipping reset_operand_maps
update_skipping-reset_operand_maps r = elim (Bool-cases (r.disable_skipping_on_next_item)) [
  | inl ends ↦ rw ends refl
  | inr stays ↦ rw stays refl
]

finalize_not_a_branch-behind :
    (rec : OpcodeRecord) (b : StfBranch) (r : BranchReader)
    → IsAt rec r.last_branch
    → finalize_not_a_branch rec (b, record r { num_insts_read = r.num_insts_read + 1 })
      ≡ ok (reset b, update_skipping (reset_operand_maps (behind rec r)))
unfolding finalize_not_a_branch
finalize_not_a_branch-behind rec b r at =
    rw
      (update_last_branch-with_target rec (record r { num_insts_read = r.num_insts_read + 1 })
        r.last_branch refl at)
      (ap (λ (t : BranchReader). ok (reset b, t))
        (sym (update_skipping-reset_operand_maps (behind rec r))))

-- Once an instruction cannot be a branch, and has no events among the records up to its
-- opcode, the loop of readNext_ forgets it: it goes on as readNext_ called anew behind that
-- opcode, on a reader that has counted the instruction, as skipped if skipping is on. If a
-- taken branch waits for the instruction at its target, this is at the target, and the branch
-- gets the opcode.
pub read_loop-read_next_branch :
    (iem : InstIem) (b : StfBranch) (r : BranchReader) (records : List TraceRecord)
    (rec : OpcodeRecord) (later : List TraceRecord)
    → All (λ (t : TraceRecord). plain t ≡ true) records
    → IsAt rec r.last_branch
    → read_loop iem true (b, r) (records ++ opcode rec ∷ later)
      ≡ read_next_branch iem (b, behind rec r) later
unfolding read_loop read_round read_next_branch
read_loop-read_next_branch iem b r [] rec later all_plain at =
    rw (finalize_not_a_branch-behind rec b r at) refl
read_loop-read_next_branch iem b r (event c u ∷ records) rec later (not_plain, all_plain) at =
    absurd cc
read_loop-read_next_branch iem b r (opcode o ∷ records) rec later (not_plain, all_plain) at =
    absurd cc
read_loop-read_next_branch iem b r (inst_reg t reg v ∷ records) rec later (is_plain, all_plain) at =
    read_loop-read_next_branch iem b r records rec later all_plain at
read_loop-read_next_branch iem b r (mem_access ∷ records) rec later (is_plain, all_plain) at =
    read_loop-read_next_branch iem b r records rec later all_plain at
read_loop-read_next_branch iem b r (pc_target target ∷ records) rec later (is_plain, all_plain) at =
    read_loop-read_next_branch iem b r records rec later all_plain at
read_loop-read_next_branch iem b r (other_record ∷ records) rec later (is_plain, all_plain) at =
    read_loop-read_next_branch iem b r records rec later all_plain at
