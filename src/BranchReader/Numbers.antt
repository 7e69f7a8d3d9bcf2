-- ===== src/BranchReader/Numbers.antt =====
-- stf-inc/stf_branch_reader.hpp: the numbers that branches get, which the buffer relies on.
use stf_lib.Common.{
  ℕ, ◌+◌, ◌-◌, Bool, true, false, not, ◌&&◌, ◌||◌, ltb, leb, ◌==◌, if◌then◌else◌, Bool-cases, inl,
  inr,
}
use stf_lib.Common.{
  Result, ok, assert, ◌>>=◌, ◌>>◌, Option, none, some, List, [], ◌∷◌, option_cases,
}
use stf_lib.Common.{
  ◌≡◌, refl, ap, arith, Ensures, Ensures-bind, Ensures-if, Ensures-assert, Ensures-ok, Ensures-any,
  gives, throws,
}
use stf_lib.Branch.Decoder.{InstIem, OpcodeRecord}
use stf_lib.Branch.Item.{
  size, BranchError, StfBranch, add_operand, decode_into, set_index, set_operand_values, reset,
}
use stf_lib.Registers.{reg_x0, reg_state, reg_source, reg_dest, is_gpr}
use stf_lib.BranchReader.{
  TraceRecord, event, inst_reg, mem_access, pc_target, opcode, other_record, taken_without_branch,
  BranchReader, update_skipping, check_skipping, update_last_branch, reset_operand_maps,
  count_skipped_inst, init_branch_index, PartialBranch, finalize_not_a_branch, from_branch,
  add_x0_operands, finish_branch, finalize_branch, x0_operand, read_source, read_dest, read_operand,
  Round, read_round, read_loop, read_next_branch,
}

-- `n` branches are read, of which `s` are skipped.
abbrev pub Counts : ℕ → ℕ → BranchReader → Type 0
Counts n s r = (r.num_branches_read ≡ n) × (r.num_skipped_items ≡ s)

-- The numbers of the next branch, and the counters after it.
abbrev pub Numbered : ℕ → ℕ → StfBranch → BranchReader → Type 0
Numbered n s b r =
    (b.unskipped_index ≡ n + 1)
    × (b.index ≡ n + 1 - s)
    × (r.num_branches_read ≡ n + 1)
    × (r.num_skipped_items ≡ (if b.skipped then s + 1 else s))

pub from_branch-Ensures {ℓ κ} :
    {A : Type ℓ} (P : A → Type κ) {m : Result BranchError A}
    → Ensures P m
    → Ensures P (from_branch m)
from_branch-Ensures P (throws e) = throws _
from_branch-Ensures P (gives a p) = gives a p

module _ (n s : ℕ) where
  abbrev Kept : PartialBranch → Type 0
  Kept reading = Counts n s reading.1

  update_skipping-Counts : (r : BranchReader) → Counts n s r → Counts n s (update_skipping r)
  unfolding update_skipping
  update_skipping-Counts r h = elim (Bool-cases (r.disable_skipping_on_next_item)) [
    | inl on ↦ rw on h
    | inr off ↦ rw off h
  ]

  check_skipping-Counts :
      (b c : Bool) (r : BranchReader) → Counts n s r → Counts n s (check_skipping b c r)
  unfolding check_skipping
  check_skipping-Counts b c r h = elim (Bool-cases (b && r.only_user_mode)) [
    | inl on ↦ rw on h
    | inr off ↦ rw off h
  ]

  update_last_branch-Counts :
      (rec : OpcodeRecord) (r : BranchReader)
      → Counts n s r
      → Ensures (Counts n s) (update_last_branch rec r)
  unfolding update_last_branch
  update_last_branch-Counts rec r h = elim (option_cases (r.last_branch)) [
    | inl nothing ↦ rw nothing (gives _ h)
    | inr (branch, pending) ↦ rw pending (Ensures-assert _ _ (gives _ h))
  ]

  finalize_not_a_branch-Kept :
      (rec : OpcodeRecord) (reading : PartialBranch)
      → Kept reading
      → Ensures Kept (finalize_not_a_branch rec reading)
  unfolding finalize_not_a_branch reset_operand_maps
  finalize_not_a_branch-Kept rec (branch, r) h =
      Ensures-bind Kept (update_last_branch-Counts rec r h)
        (λ r' h'. gives _ (update_skipping-Counts (count_skipped_inst r'.skipping_enabled r') h'))

  add_x0_operands-Counts :
      (b : StfBranch) (r : BranchReader) → Counts n s r → Ensures (Counts n s) (add_x0_operands b r)
  unfolding add_x0_operands
  add_x0_operands-Counts b r h =
      Ensures-bind (Counts n s)
        (Ensures-any (x0_operand (b.info.rs1 == reg_x0 || b.info.rs2 == reg_x0) r.src_operands))
        (λ src any.
          Ensures-bind (Counts n s) (Ensures-any (x0_operand (b.info.rd == reg_x0) r.dest_operands))
            (λ dest any'. gives _ h))

  abbrev FoundKept : Bool × BranchReader → Type 0
  FoundKept found = Counts n s found.1

  read_source-Counts :
      (reg v : ℕ) (r : BranchReader) → Counts n s r → Ensures FoundKept (read_source reg v r)
  unfolding read_source
  read_source-Counts reg v r h = Ensures-if (leb 2 (size r.src_operands)) (gives (true, r) h) (
      Ensures-bind FoundKept (Ensures-any (add_operand r.src_operands reg v))
        (λ src any. gives _ h))

  read_dest-Counts :
      (reg v : ℕ) (r : BranchReader) → Counts n s r → Ensures FoundKept (read_dest reg v r)
  unfolding read_dest
  read_dest-Counts reg v r h = Ensures-if (ltb 0 (size r.dest_operands)) (gives (true, r) h) (
      Ensures-bind FoundKept (Ensures-any (add_operand r.dest_operands reg v))
        (λ dest any. gives _ h))

  read_operand-Counts :
      (t reg v : ℕ) (r : BranchReader) → Counts n s r → Ensures FoundKept (read_operand t reg v r)
  unfolding read_operand
  read_operand-Counts t reg v r h = Ensures-if (t == reg_state) (gives (false, r) h) (
      Ensures-if (not (is_gpr reg)) (gives (true, r) h) (
        Ensures-if (t == reg_source) (read_source-Counts reg v r h)
          (Ensures-if (t == reg_dest) (read_dest-Counts reg v r h) (gives (false, r) h))))

  abbrev Read : PartialBranch → Type 0
  Read reading = Numbered n s reading.0 reading.1

  module _ (skip_item : Bool) (r : BranchReader) (h : Counts n s r) where
    numbers :
        (r.num_branches_read + 1 ≡ n + 1)
        × (r.num_branches_read + 1 - r.num_skipped_items ≡ n + 1 - s)
        × (r.num_branches_read + 1 ≡ n + 1)
        × ((if skip_item then r.num_skipped_items + 1 else r.num_skipped_items)
            ≡ (if skip_item then s + 1 else s))
    numbers = (
      omega (arith, h.0),
      omega (arith, h.0, h.1),
      omega (arith, h.0),
      ap (λ (t : ℕ). if skip_item then t + 1 else t) h.1,
    )

  finish_branch-Numbered :
      (skip_item : Bool) (b : StfBranch) (r : BranchReader)
      → Counts n s r
      → Ensures Read (finish_branch skip_item b r)
  unfolding finish_branch init_branch_index set_index
  finish_branch-Numbered skip_item b r h =
      Ensures-bind Read (add_x0_operands-Counts b r h) (λ r1 h1.
        Ensures-bind Read (Ensures-any (set_operand_values b r1.src_operands r1.dest_operands))
          (λ valued any. gives _ (elim (Bool-cases (valued.taken)) [
            | inl is_taken ↦ rw is_taken (numbers skip_item r1 h1)
            | inr fell ↦ rw fell (numbers skip_item r1 h1)
          ])))

  abbrev ReadOrKept : Bool × PartialBranch → Type 0
  ReadOrKept found = if found.0 then Read found.1 else Kept found.1

  after_decode :
      (found skip_item : Bool) (decoded : StfBranch) (r : BranchReader)
      → Counts n s r
      → Ensures ReadOrKept (
          if found
          then (from_branch (finish_branch skip_item decoded r) >>= λ reading. ok (true, reading))
          else (assert (not decoded.taken) taken_without_branch
              >> ok (false, (reset decoded, reset_operand_maps r))))
  unfolding reset_operand_maps
  after_decode true skip_item decoded r h =
      Ensures-bind ReadOrKept
        (from_branch-Ensures Read (finish_branch-Numbered skip_item decoded r h))
        (λ reading numbered. gives (true, reading) numbered)
  after_decode false skip_item decoded r h =
      Ensures-assert (not decoded.taken) taken_without_branch
        (gives (false, (reset decoded, reset_operand_maps r)) h)

  finalize_branch-Counts :
      (iem : InstIem) (rec : OpcodeRecord) (reading : PartialBranch)
      → Kept reading
      → Ensures ReadOrKept (finalize_branch iem rec reading)
  unfolding finalize_branch
  finalize_branch-Counts iem rec (b, r) h =
      Ensures-bind ReadOrKept (update_last_branch-Counts rec r h) (λ r1 h1.
        Ensures-bind ReadOrKept (Ensures-any (from_branch (decode_into iem rec b))) (λ decoded any.
          after_decode decoded.0 r1.skipping_enabled decoded.1
            (count_skipped_inst r1.skipping_enabled r1) h1))

  abbrev RoundKeeps : Round → Type 0
  RoundKeeps round = if round.0 then Read round.2 else Kept round.2

  read_round-Counts :
      (iem : InstIem) (flagged : Bool) (reading : PartialBranch) (rec : TraceRecord)
      → Kept reading
      → Ensures RoundKeeps (read_round iem flagged reading rec)
  unfolding read_round
  read_round-Counts iem false (b, r) (event change user) h =
      gives _ (check_skipping-Counts change user r h)
  read_round-Counts iem true (b, r) (event change user) h =
      gives _ (check_skipping-Counts change user r h)
  read_round-Counts iem true (b, r) (opcode rec) h =
      Ensures-bind RoundKeeps
        (finalize_not_a_branch-Kept rec (b, record r { num_insts_read = r.num_insts_read + 1 }) h)
        (λ reading kept. gives (false, false, reading) kept)
  read_round-Counts iem true (b, r) (inst_reg t reg v) h = gives _ h
  read_round-Counts iem true (b, r) mem_access h = gives _ h
  read_round-Counts iem true (b, r) (pc_target target) h = gives _ h
  read_round-Counts iem true (b, r) other_record h = gives _ h
  read_round-Counts iem false (b, r) (inst_reg t reg v) h =
      Ensures-bind RoundKeeps (from_branch-Ensures FoundKept (read_operand-Counts t reg v r h))
        (λ found kept. gives (false, found.0, (b, found.1)) kept)
  read_round-Counts iem false (b, r) (opcode rec) h =
      Ensures-bind RoundKeeps
        (finalize_branch-Counts iem rec (b, record r { num_insts_read = r.num_insts_read + 1 }) h)
        (λ found kept. gives (found.0, false, found.1) kept)
  read_round-Counts iem false (b, r) mem_access h = gives _ h
  read_round-Counts iem false (b, r) (pc_target target) h = gives _ h
  read_round-Counts iem false (b, r) other_record h = gives _ h

  -- What `readNext_` returns.
  abbrev pub NextNumbered : Option StfBranch × BranchReader × List TraceRecord → Type 0
  NextNumbered next = elim next.0 [ none ↦ Counts n s next.1 | some b ↦ Numbered n s b next.1 ]

  after_round :
      (iem : InstIem) (found flagged : Bool) (reading : PartialBranch) (records : List TraceRecord)
      → RoundKeeps (found, flagged, reading)
      → (Kept reading → Ensures NextNumbered (read_loop iem flagged reading records))
      → Ensures NextNumbered (
          if found
          then ok (some reading.0, reading.1, records)
          else read_loop iem flagged reading records)
  after_round iem true flagged reading records keeps rest =
      gives (some reading.0, reading.1, records) keeps
  after_round iem false flagged reading records keeps rest = rest keeps

  read_loop-Numbered :
      (iem : InstIem) (flagged : Bool) (reading : PartialBranch) (records : List TraceRecord)
      → Kept reading
      → Ensures NextNumbered (read_loop iem flagged reading records)
  unfolding read_loop
  read_loop-Numbered iem flagged (b, r) [] h = gives (none, r, []) h
  read_loop-Numbered iem flagged reading (rec ∷ records) h =
      Ensures-bind NextNumbered (read_round-Counts iem flagged reading rec h) (λ round keeps.
        after_round iem round.0 round.1 round.2 records keeps
          (λ kept. read_loop-Numbered iem round.1 round.2 records kept))

  pub read_next_branch-Ensures :
      (iem : InstIem) (b : StfBranch) (r : BranchReader) (records : List TraceRecord)
      → Counts n s r
      → Ensures NextNumbered (read_next_branch iem (b, r) records)
  unfolding read_next_branch reset_operand_maps
  read_next_branch-Ensures iem b r records h =
      read_loop-Numbered iem false (reset b, update_skipping (reset_operand_maps r)) records
        (update_skipping-Counts (reset_operand_maps r) h)

-- A branch that readNext_ returns has the number of branches read, itself included, as its
-- unskipped index, and that number less the branches skipped before it as its index; the
-- counters grow by it.
pub read_next_branch-numbers :
    (iem : InstIem) (b b' : StfBranch) (r r' : BranchReader) (records left : List TraceRecord)
    → read_next_branch iem (b, r) records ≡ ok (some b', r', left)
    → (b'.unskipped_index ≡ r.num_branches_read + 1)
      × (b'.index ≡ r.num_branches_read + 1 - r.num_skipped_items)
      × (r'.num_branches_read ≡ r.num_branches_read + 1)
      × (r'.num_skipped_items
          ≡ (if b'.skipped then r.num_skipped_items + 1 else r.num_skipped_items))
read_next_branch-numbers iem b b' r r' records left found =
    Ensures-ok (NextNumbered r.num_branches_read r.num_skipped_items)
      (read_next_branch-Ensures r.num_branches_read r.num_skipped_items iem b r records
        (refl, refl))
      found
