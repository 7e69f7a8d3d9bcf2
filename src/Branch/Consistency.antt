-- ===== src/Branch/Consistency.antt =====
-- How the outputs of the branch decoder fit together, for the assertions of `setInfo_` in
-- stf-inc/stf_branch.hpp.
use stf_lib.Common.{Bool, ℕ, ◌/◌, ◌%◌, ◌^◌, ◌≡◌, arith}
use stf_lib.Branch.Fields.{get_bit_range_lem}
use stf_lib.ByteUtils.{get_bit_range}
use stf_lib.Common.{true, false, not, ◌&&◌, ◌||◌, ◌==◌, if◌then◌else◌, ok, err}
use stf_lib.Branch.Decoder.{InstIem, BranchInfo, OpcodeRecord, opcode16, opcode32, initial_info}
use stf_lib.Branch.Decoder.{decode_branch32, decode_branch16, reset_info, decode}
use stf_lib.Branch.Decoder.{decode_jal, decode_jalr, decode_conditional}
use stf_lib.Branch.Decoder.{decode_c_jal, decode_c_branch, decode_c_jr, decode_c_pop_or_j}
use stf_lib.Branch.Item.{StfBranch, decode_into, set_info, validate_branch_target}
use stf_lib.Branch.Item.{indirect_without_target, target_mismatch, record_pc, record_opcode}

pub record IsConsistent (i : BranchInfo) : Type 0 where
  pub conditional_is_direct : i.is_conditional && i.is_indirect ≡ false
  pub conditional_is_no_call : i.is_conditional && i.is_call ≡ false
  pub conditional_is_no_return : i.is_conditional && i.is_return ≡ false
  pub indirect_has_no_target : i.is_indirect ≡ true → i.target ≡ 0
  pub millicall_is_call : i.is_millicall ≡ true → i.is_call ≡ true
  pub millireturn_is_return : i.is_millireturn ≡ true → i.is_return ≡ true
  pub return_is_indirect : i.is_return ≡ true → i.is_indirect ≡ true
  pub one_comparison : i.is_conditional ≡ true → i.compare_eq ≡ true → i.compare_not_eq ≡ false
  pub compares :
      i.is_conditional ≡ false
      → i.compare_eq || i.compare_not_eq || i.compare_greater_than_or_equal || i.compare_less_than
          || i.compare_unsigned
        ≡ false

reset_info-IsConsistent : (o : BranchInfo) → IsConsistent (reset_info o)
unfolding reset_info
reset_info-IsConsistent o = ground arith

-- What holds of both branches holds of the if.
if_both :
    (P : Bool × BranchInfo → Type 0) (b : Bool) {x y : Bool × BranchInfo}
    → P x
    → P y
    → P (if b then x else y)
if_both P true h k = h
if_both P false h k = k

module _ (o : BranchInfo) where
  decode_c_jal-IsConsistent :
      (iem : InstIem) (pc op bottom : ℕ)
      → IsConsistent (decode_c_jal iem pc op bottom (reset_info o)).1
  unfolding decode_c_jal reset_info
  decode_c_jal-IsConsistent iem pc op bottom = ground arith

  decode_c_branch-IsConsistent :
      (eq : Bool) (pc op bottom : ℕ)
      → IsConsistent (decode_c_branch eq pc op bottom (reset_info o)).1
  unfolding decode_c_branch reset_info
  decode_c_branch-IsConsistent eq pc op bottom = ground arith

  decode_c_jr-IsConsistent : (op bottom : ℕ) → IsConsistent (decode_c_jr op bottom (reset_info o)).1
  unfolding decode_c_jr reset_info
  decode_c_jr-IsConsistent op bottom = ground arith

  decode_c_pop_or_j-IsConsistent :
      (pc op bottom : ℕ) → IsConsistent (decode_c_pop_or_j pc op bottom (reset_info o)).1
  unfolding decode_c_pop_or_j reset_info
  decode_c_pop_or_j-IsConsistent pc op bottom = ground arith

decode_branch16-IsConsistent :
    (iem : InstIem) (pc op : ℕ) (o : BranchInfo) → IsConsistent (decode_branch16 iem pc op o).1
unfolding decode_branch16
decode_branch16-IsConsistent iem pc op o =
    let P : Bool × BranchInfo → Type 0 = λ r. IsConsistent r.1 in
    let top : ℕ = get_bit_range 16 15 13 2 op in
    let bottom : ℕ = get_bit_range 16 1 0 1 op in
    if_both P (top == 1) (decode_c_jal-IsConsistent o iem pc op bottom) (
      if_both P (top == 6) (decode_c_branch-IsConsistent o true pc op bottom) (
        if_both P (top == 7) (decode_c_branch-IsConsistent o false pc op bottom) (
          if_both P (top == 4) (decode_c_jr-IsConsistent o op bottom) (
            if_both P (top == 5) {y = (false, reset_info o)}
              (decode_c_pop_or_j-IsConsistent o pc op bottom) (reset_info-IsConsistent o)))))

decode_branch32-IsConsistent :
    (pc op : ℕ) (o : BranchInfo)
    → (decode_branch32 pc op o).0 ≡ true
    → IsConsistent (decode_branch32 pc op o).1
unfolding decode_branch32 reset_info decode_jal decode_jalr decode_conditional
decode_branch32-IsConsistent pc op o h = ground arith

-- Every branch that `decode` finds is consistent: a conditional branch is not indirect, no
-- call and no return, an indirect branch has no computed target, millicalls are calls,
-- millireturns are returns, returns are indirect, and only a conditional branch compares,
-- equal and not equal never both.
pub decode-IsConsistent :
    (iem : InstIem) (rec : OpcodeRecord) (o : BranchInfo)
    → (decode iem rec o).0 ≡ true
    → IsConsistent (decode iem rec o).1
unfolding decode
decode-IsConsistent iem (opcode16 pc op) o h = decode_branch16-IsConsistent iem pc op _
decode-IsConsistent iem (opcode32 pc op) o h = decode_branch32-IsConsistent pc op _ h

-- What `setInfo_` stores, with the target that it keeps.
abbrev pub filled : StfBranch → ℕ → ℕ → BranchInfo → ℕ → StfBranch
filled b pc opcode i target = record b {
  pc = pc;
  opcode = opcode;
  info = record i { target = target };
}

-- On consistent outputs `setInfo_` fails only in the check of the target.
set_info_lem :
    (b : StfBranch) (pc opcode : ℕ) (i : BranchInfo)
    → IsConsistent i
    → set_info b pc opcode i ≡ (
        if i.is_indirect
        then (if b.info.target == 0
            then err indirect_without_target
            else ok (filled b pc opcode i b.info.target))
        else if b.taken && not (b.info.target == i.target)
        then err target_mismatch
        else ok (filled b pc opcode i i.target))
unfolding set_info validate_branch_target
set_info_lem b pc opcode i c = ground arith

-- `decode` into a branch item, on every path: an opcode that is no branch leaves the item
-- alone; an indirect branch keeps the target that the trace gave, which must not be 0; any
-- other branch gets the computed target, which must be that of the trace if the branch was
-- taken.
pub decode_into_lem :
    (iem : InstIem) (rec : OpcodeRecord) (b : StfBranch)
    → let (found, i) = decode iem rec initial_info in
      let item = filled b (record_pc rec) (record_opcode rec) i in
      decode_into iem rec b ≡ (
        if not found
        then ok (false, b)
        else if i.is_indirect
        then (if b.info.target == 0
            then err indirect_without_target
            else ok (true, item b.info.target))
        else if b.taken && not (b.info.target == i.target)
        then err target_mismatch
        else ok (true, item i.target))
unfolding decode_into
decode_into_lem iem rec b = ground (
  arith,
  decode-IsConsistent iem rec initial_info,
  set_info_lem b (record_pc rec) (record_opcode rec) (decode iem rec initial_info).1,
)

-- A 32-bit opcode is a branch exactly if its major opcode is BRANCH, JALR or JAL.
pub decode_branch32_iff :
    (pc op : ℕ) (o : BranchInfo)
    → (decode_branch32 pc op o).0 ≡ (
        op / 2 ^ 2 % 2 ^ 5 == 0b11000
        || op / 2 ^ 2 % 2 ^ 5 == 0b11001
        || op / 2 ^ 2 % 2 ^ 5 == 0b11011)
unfolding decode_branch32
decode_branch32_iff pc op o =
    ground (arith, get_bit_range_lem 32 6 5 op, get_bit_range_lem 32 4 2 op)
