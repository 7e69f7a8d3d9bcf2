-- ===== src/BranchReader/Waiting.antt =====
-- stf-inc/stf_branch_reader.hpp: the taken branch that `last_branch_` points to, through the operations
-- that `readNext_` calls.
use stf_lib.Common.{
  ℕ, Bool, true, false, not, ◌&&◌, ◌||◌, ltb, leb, ◌==◌, ==_iff, if◌then◌else◌, Bool-cases, inl,
  inr,
}
use stf_lib.Common.{ok, assert, ◌>>=◌, ◌>>◌, Option, none, some, List, [], ◌∷◌}
use stf_lib.Common.{
  ◌≡◌, refl, ap, Ensures, Ensures-bind, Ensures-if, Ensures-assert, Ensures-asserted, Ensures-any,
  gives,
}
use stf_lib.Branch.Decoder.{InstIem, OpcodeRecord}
use stf_lib.Branch.Item.{
  size, StfBranch, add_operand, decode_into, set_index, set_operand_values, reset, record_opcode,
}
use stf_lib.Registers.{reg_x0, reg_state, reg_source, reg_dest, is_gpr}
use stf_lib.BranchReader.{
  TraceRecord, event, inst_reg, mem_access, pc_target, opcode, other_record, taken_without_branch,
  BranchReader, update_skipping, check_skipping, update_last_branch, reset_operand_maps,
  count_skipped_inst, init_branch_index, PartialBranch, finalize_not_a_branch, from_branch,
  add_x0_operands, finish_branch, finalize_branch, x0_operand, read_source, read_dest, read_operand,
}
use stf_lib.BranchReader.Numbers.{from_branch-Ensures}
use stf_lib.BranchReader.Records.{IsAt, with_target}

abbrev pub is_opcode : TraceRecord → Bool
is_opcode (opcode rec) = true
is_opcode (event change user) = false
is_opcode (inst_reg t reg v) = false
is_opcode mem_access = false
is_opcode (pc_target target) = false
is_opcode other_record = false

-- The instruction that the records begin with ends at the first opcode record.
unfoldable pub first_opcode : List TraceRecord → Option OpcodeRecord
first_opcode [] = none
first_opcode (opcode rec ∷ records) = some rec
first_opcode (event change user ∷ records) = first_opcode records
first_opcode (inst_reg t reg v ∷ records) = first_opcode records
first_opcode (mem_access ∷ records) = first_opcode records
first_opcode (pc_target target ∷ records) = first_opcode records
first_opcode (other_record ∷ records) = first_opcode records

-- `last` is the branch that waits, and `done` are those that have their opcode.
abbrev pub Waits : Option StfBranch → List StfBranch → BranchReader → Type 0
Waits last done r = (r.last_branch ≡ last) × (r.completed ≡ done)

-- Behind the opcode record `rec`.
abbrev pub Passes : OpcodeRecord → Option StfBranch → List StfBranch → BranchReader → Type 0
Passes rec last done r = Waits none (with_target rec last done) r × IsAt rec last

abbrev pub waiting : StfBranch → Option StfBranch
waiting b = if b.taken then some b else none

abbrev pub Completes : OpcodeRecord → Option StfBranch → List StfBranch → PartialBranch → Type 0
Completes rec last done (b, r) =
    IsAt rec last × (r.completed ≡ with_target rec last done) × (r.last_branch ≡ waiting b)

update_last_branch-Passes :
    (rec : OpcodeRecord) (last : Option StfBranch) (done : List StfBranch) (r : BranchReader)
    → Waits last done r
    → Ensures (Passes rec last done) (update_last_branch rec r)
unfolding update_last_branch
update_last_branch-Passes rec none done r (l, d) = rw l (gives _ ((refl, d), tt))
update_last_branch-Passes rec (some branch) done r (l, d) = rw l (
    Ensures-asserted _ _ (λ same.
      gives
        (record r {
          last_branch = none;
          completed = record branch { target_opcode = record_opcode rec } ∷ r.completed;
        })
        ((refl, ap (with_target rec (some branch)) d), (==_iff _ _).0 same)))

module _ (last : Option StfBranch) (done : List StfBranch) where
  pub update_skipping-Waits :
      (r : BranchReader) → Waits last done r → Waits last done (update_skipping r)
  unfolding update_skipping
  update_skipping-Waits r h = elim (Bool-cases (r.disable_skipping_on_next_item)) [
    | inl on ↦ rw on h
    | inr off ↦ rw off h
  ]

  pub check_skipping-Waits :
      (b c : Bool) (r : BranchReader) → Waits last done r → Waits last done (check_skipping b c r)
  unfolding check_skipping
  check_skipping-Waits b c r h = elim (Bool-cases (b && r.only_user_mode)) [
    | inl on ↦ rw on h
    | inr off ↦ rw off h
  ]

  abbrev pub FoundWaits : Bool × BranchReader → Type 0
  FoundWaits found = Waits last done found.1

  read_source-Waits :
      (reg v : ℕ) (r : BranchReader) → Waits last done r → Ensures FoundWaits (read_source reg v r)
  unfolding read_source
  read_source-Waits reg v r h = Ensures-if (leb 2 (size r.src_operands)) (gives (true, r) h) (
      Ensures-bind FoundWaits (Ensures-any (add_operand r.src_operands reg v))
        (λ src any. gives _ h))

  read_dest-Waits :
      (reg v : ℕ) (r : BranchReader) → Waits last done r → Ensures FoundWaits (read_dest reg v r)
  unfolding read_dest
  read_dest-Waits reg v r h = Ensures-if (ltb 0 (size r.dest_operands)) (gives (true, r) h) (
      Ensures-bind FoundWaits (Ensures-any (add_operand r.dest_operands reg v))
        (λ dest any. gives _ h))

  pub read_operand-Waits :
      (t reg v : ℕ) (r : BranchReader)
      → Waits last done r
      → Ensures FoundWaits (read_operand t reg v r)
  unfolding read_operand
  read_operand-Waits t reg v r h = Ensures-if (t == reg_state) (gives (false, r) h) (
      Ensures-if (not (is_gpr reg)) (gives (true, r) h) (
        Ensures-if (t == reg_source) (read_source-Waits reg v r h)
          (Ensures-if (t == reg_dest) (read_dest-Waits reg v r h) (gives (false, r) h))))

  add_x0_operands-Waits :
      (b : StfBranch) (r : BranchReader)
      → Waits last done r
      → Ensures (Waits last done) (add_x0_operands b r)
  unfolding add_x0_operands
  add_x0_operands-Waits b r h =
      Ensures-bind _
        (Ensures-any (x0_operand (b.info.rs1 == reg_x0 || b.info.rs2 == reg_x0) r.src_operands))
        (λ src any.
          Ensures-bind _ (Ensures-any (x0_operand (b.info.rd == reg_x0) r.dest_operands))
            (λ dest any'. gives _ h))

module _ (rec : OpcodeRecord) (last : Option StfBranch) (done : List StfBranch) where
  finish_branch-Completes :
      (skip_item : Bool) (b : StfBranch) (r : BranchReader)
      → Passes rec last done r
      → Ensures (Completes rec last done) (finish_branch skip_item b r)
  unfolding finish_branch init_branch_index set_index
  finish_branch-Completes skip_item b r (h, at) =
      Ensures-bind _ (add_x0_operands-Waits none (with_target rec last done) b r h) (λ r1 h1.
        Ensures-bind _ (Ensures-any (set_operand_values b r1.src_operands r1.dest_operands))
          (λ valued any. gives _ (elim (Bool-cases (valued.taken)) [
            | inl is_taken ↦ rw is_taken (at, h1.1, refl)
            | inr fell ↦ rw fell (at, h1.1, h1.0)
          ])))

  abbrev pub Goes : Bool × PartialBranch → Type 0
  Goes (true, reading) = Completes rec last done reading
  Goes (false, reading) = Passes rec last done reading.1

  after_decode-Goes :
      (found skip_item : Bool) (decoded : StfBranch) (r : BranchReader)
      → Passes rec last done r
      → Ensures Goes (
          if found
          then (from_branch (finish_branch skip_item decoded r) >>= λ reading. ok (true, reading))
          else (assert (not decoded.taken) taken_without_branch
              >> ok (false, (reset decoded, reset_operand_maps r))))
  unfolding reset_operand_maps
  after_decode-Goes true skip_item decoded r h =
      Ensures-bind _ (from_branch-Ensures _ (finish_branch-Completes skip_item decoded r h))
        (λ reading completes. gives (true, reading) completes)
  after_decode-Goes false skip_item decoded r h =
      Ensures-assert (not decoded.taken) taken_without_branch
        (gives (false, (reset decoded, reset_operand_maps r)) h)

  pub finalize_branch-Goes :
      (iem : InstIem) (b : StfBranch) (r : BranchReader)
      → Waits last done r
      → Ensures Goes (finalize_branch iem rec (b, r))
  unfolding finalize_branch
  finalize_branch-Goes iem b r h =
      Ensures-bind _ (update_last_branch-Passes rec last done r h) (λ r1 h1.
        Ensures-bind _ (Ensures-any (from_branch (decode_into iem rec b))) (λ decoded any.
          after_decode-Goes decoded.0 r1.skipping_enabled decoded.1
            (count_skipped_inst r1.skipping_enabled r1) h1))

  pub finalize_not_a_branch-Passes :
      (b : StfBranch) (r : BranchReader)
      → Waits last done r
      → Ensures (λ reading. Passes rec last done reading.1) (finalize_not_a_branch rec (b, r))
  unfolding finalize_not_a_branch reset_operand_maps
  finalize_not_a_branch-Passes b r h =
      Ensures-bind _ (update_last_branch-Passes rec last done r h) (λ r' (waits, at). gives _ (
        update_skipping-Waits none (with_target rec last done)
            (count_skipped_inst r'.skipping_enabled r') waits,
        at,
      ))
