-- ===== src/PcTracker.antt =====
-- stf-inc/stf_pc_tracker.hpp and lib/stf_pc_tracker.cpp: the PC that a sequence of records implies.
pub mod Follow
use stf_lib.Common.{ℕ, ◌+◌, ◌%◌, ◌^◌, Bool, true, false, if◌then◌else◌, List, [], ◌∷◌}

pub record PcTracker : Type 0 where
  pub pc : ℕ
  pub next_pc : ℕ
  pub target_pc : ℕ
  pub pc_offset : ℕ
  pub is_branch : Bool

-- The records that it inspects; an opcode by its size in bytes.
pub data PcRecord : Type 0 where
  force_pc_record pc_target_record opcode_record : ℕ → PcRecord

-- The constructor with a PC and an offset.
unfoldable pub new_tracker : ℕ → ℕ → PcTracker
new_tracker pc offset = record {
  pc = (pc + offset) % 2 ^ 64;
  next_pc = (pc + offset) % 2 ^ 64;
  target_pc = 0;
  pc_offset = offset;
  is_branch = false;
}

-- `setTargetPC_`
abbrev pub set_target_pc : PcTracker → ℕ → PcTracker
set_target_pc t pc = record t { target_pc = (pc + t.pc_offset) % 2 ^ 64; is_branch = true }

-- `forcePC`
unfoldable pub force_pc : PcTracker → ℕ → PcTracker
force_pc t pc = record t { pc = pc; next_pc = pc }

-- `track` of an opcode record.
unfoldable pub track_opcode : PcTracker → ℕ → PcTracker
track_opcode t size =
    if t.is_branch
    then record t { pc = t.next_pc; next_pc = t.target_pc; is_branch = false }
    else record t { pc = t.next_pc; next_pc = (t.next_pc + size) % 2 ^ 64 }

-- `track` of a record.
unfoldable pub track : PcTracker → PcRecord → PcTracker
track t (force_pc_record addr) = record t { next_pc = (addr + t.pc_offset) % 2 ^ 64 }
track t (pc_target_record addr) = set_target_pc t addr
track t (opcode_record size) = track_opcode t size

-- `track` of an STFInst, by its PC, its size, and its target if it is a taken branch.
unfoldable pub track_inst : PcTracker → (pc size : ℕ) → (is_taken_branch : Bool) → ℕ → PcTracker
track_inst t pc size is_taken_branch target =
    if is_taken_branch
    then record t { pc = pc; next_pc = target }
    else record t { pc = pc; next_pc = (t.next_pc + size) % 2 ^ 64 }

-- `track` of each record in turn.
unfoldable pub track_all : PcTracker → List PcRecord → PcTracker
track_all t [] = t
track_all t (rec ∷ records) = track_all (track t rec) records
