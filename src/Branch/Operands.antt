-- ===== src/Branch/Operands.antt =====
-- The operand map of a branch, `STFBranch::OperandMap` of stf-inc/stf_branch.hpp.
use stf_lib.Common.{ℕ, ◌+◌, ◌<◌, ◌≤◌, ◌≡◌, arith, ◌≢◌}
use stf_lib.Common.{◌||◌, ◌==◌, if◌then◌else◌, Result, ok, err}
use stf_lib.Registers.{reg_invalid}
use stf_lib.Branch.Item.{
  OperandMap, RegPair, BranchError, third_source, clear, add_operand, get_operand,
}
use stf_lib.Branch.Item.{has_operand, size, StfBranch, set_operand_values}

-- The entries from `wr_index` on are empty.
pub record IsValid (m : OperandMap) : Type 0 where
  pub at_most_two : m.wr_index ≤ 2
  pub first_unused : m.wr_index ≡ 0 → m.first.reg ≡ reg_invalid
  pub second_unused : m.wr_index < 2 → m.second.reg ≡ reg_invalid

pub clear-IsValid : IsValid clear
unfolding clear
clear-IsValid = ground arith

abbrev pub lookup : OperandMap → ℕ → ℕ
lookup m r = if m.first.reg == r then m.first.val else if m.second.reg == r then m.second.val else 0

-- What a register reads as in a map to which `r` was added with value `v`.
abbrev pub read_after_add : OperandMap → ℕ → ℕ → ℕ → Result BranchError ℕ
read_after_add m r v j = if has_operand m j then get_operand m j else if j == r then ok v else ok 0

abbrev pub added : OperandMap → ℕ → ℕ → OperandMap
added m r v =
    let pair : RegPair = record { reg = r; val = v } in
    if m.wr_index == 0
    then record m { wr_index = m.wr_index + 1; first = pair }
    else record m { wr_index = m.wr_index + 1; second = pair }

-- A full map refuses an operand. A map with room counts it and stays valid.
pub add_operand-IsValid :
    (m : OperandMap) (r v : ℕ)
    → IsValid m
    → (m.wr_index ≡ 2 → add_operand m r v ≡ err third_source)
      × (m.wr_index < 2 → add_operand m r v ≡ ok (added m r v))
      × (m.wr_index < 2 → IsValid (added m r v) × (size (added m r v) ≡ size m + 1))
unfolding add_operand size
add_operand-IsValid m r v h = (λ e. ground arith, λ e. ground arith, λ e. ground arith)

-- After an addition to a valid map the new register reads as its value, unless it was there
-- before; every other register reads as before. The register read is not the invalid one.
pub get_operand-add_operand :
    (m : OperandMap) (r v j : ℕ) {m' : OperandMap}
    → IsValid m
    → j ≢ reg_invalid
    → add_operand m r v ≡ ok m'
    → get_operand m' j ≡ read_after_add m r v j
unfolding add_operand get_operand has_operand
get_operand-add_operand m r v j h hj e = ground arith

-- `setOperandValues_` reads no invalid register: it stores the values of the registers that
-- the branch has, 0 for one that the maps lack, and keeps the rest.
pub set_operand_values_lem :
    (b : StfBranch) (sources dests : OperandMap)
    → set_operand_values b sources dests
      ≡ ok (record b {
        rs1_value = if b.info.rs1 == reg_invalid then b.rs1_value else lookup sources b.info.rs1;
        rs2_value =
            if b.info.rs1 == reg_invalid || b.info.rs2 == reg_invalid
            then b.rs2_value
            else lookup sources b.info.rs2;
        rd_value = if b.info.rd == reg_invalid then b.rd_value else lookup dests b.info.rd;
      })
unfolding set_operand_values get_operand
set_operand_values_lem b sources dests = ground arith
