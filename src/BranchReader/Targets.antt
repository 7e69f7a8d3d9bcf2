-- ===== src/BranchReader/Targets.antt =====
-- stf-inc/stf_branch_reader.hpp: the taken branch that `last_branch_` points to, and the opcode at
-- its target.
use stf_lib.Common.{◌+◌, Bool, true, false, if◌then◌else◌}
use stf_lib.Common.{ok, Option, none, some, List, [], ◌∷◌}
use stf_lib.Common.{◌≡◌, refl, Ensures, Ensures-bind, Ensures-map, Ensures-ok, gives}
use stf_lib.Branch.Decoder.{InstIem, OpcodeRecord}
use stf_lib.Branch.Item.{StfBranch, reset}
use stf_lib.BranchReader.{
  TraceRecord, event, inst_reg, mem_access, pc_target, opcode, other_record, BranchReader,
  update_skipping, reset_operand_maps, PartialBranch, Round, read_round, read_loop,
  read_next_branch,
}
use stf_lib.BranchReader.Numbers.{from_branch-Ensures}
use stf_lib.BranchReader.Records.{IsAt, with_target}
use stf_lib.BranchReader.Waiting.{
  is_opcode, first_opcode, Waits, Completes, Goes, update_skipping-Waits, check_skipping-Waits,
  read_operand-Waits, finalize_branch-Goes, finalize_not_a_branch-Passes,
}

-- What `readNext_` returns.
abbrev NextCompletes :
    Option StfBranch
    → List StfBranch
    → Option OpcodeRecord
    → Option StfBranch × BranchReader × List TraceRecord
    → Type 0
NextCompletes last done first (none, r, left) = Unit
NextCompletes last done first (some b, r, left) =
    (rec : OpcodeRecord) × (first ≡ some rec) × Completes rec last done (b, r)

module _ (iem : InstIem) (last : Option StfBranch) (done : List StfBranch) where
  read_round-opcode :
      (flagged : Bool) (b : StfBranch) (r : BranchReader) (rec : OpcodeRecord)
      → Waits last done r
      → Ensures
          (λ round. Goes rec last done (round.0, round.2))
          (read_round iem flagged (b, r) (opcode rec))
  unfolding read_round
  read_round-opcode true b r rec h =
      Ensures-bind _
        (finalize_not_a_branch-Passes rec last done b
          (record r { num_insts_read = r.num_insts_read + 1 }) h)
        (λ reading passes. gives _ passes)
  read_round-opcode false b r rec h =
      Ensures-bind _
        (finalize_branch-Goes rec last done iem b
          (record r { num_insts_read = r.num_insts_read + 1 }) h)
        (λ found goes. gives _ goes)

  -- Any other record lets it wait.
  abbrev GoesOn : Round → Type 0
  GoesOn round = (round.0 ≡ false) × Waits last done round.2.1

  read_round-GoesOn :
      (flagged : Bool) (b : StfBranch) (r : BranchReader) (t : TraceRecord)
      → is_opcode t ≡ false
      → Waits last done r
      → Ensures GoesOn (read_round iem flagged (b, r) t)
  unfolding read_round
  read_round-GoesOn true b r (event change user) plain h =
      gives _ (refl, check_skipping-Waits last done change user r h)
  read_round-GoesOn false b r (event change user) plain h =
      gives _ (refl, check_skipping-Waits last done change user r h)
  read_round-GoesOn flagged b r (opcode rec) plain h = absurd cc
  read_round-GoesOn true b r (inst_reg t reg v) plain h = gives _ (refl, h)
  read_round-GoesOn false b r (inst_reg t reg v) plain h =
      Ensures-bind _ (from_branch-Ensures _ (read_operand-Waits last done t reg v r h))
        (λ found waits. gives _ (refl, waits))
  read_round-GoesOn true b r mem_access plain h = gives _ (refl, h)
  read_round-GoesOn false b r mem_access plain h = gives _ (refl, h)
  read_round-GoesOn true b r (pc_target target) plain h = gives _ (refl, h)
  read_round-GoesOn false b r (pc_target target) plain h = gives _ (refl, h)
  read_round-GoesOn true b r other_record plain h = gives _ (refl, h)
  read_round-GoesOn false b r other_record plain h = gives _ (refl, h)

NextCompletes-passed :
    (rec : OpcodeRecord) (last : Option StfBranch) (done : List StfBranch)
    (first : Option OpcodeRecord) (next : Option StfBranch × BranchReader × List TraceRecord)
    → IsAt rec last
    → NextCompletes none (with_target rec last done) first next
    → NextCompletes last done (some rec) next
NextCompletes-passed rec last done first (none, r, left) at h = tt
NextCompletes-passed rec last done first (some b, r, left) at
      (later, met, (done_at, completed, waits)) =
    (rec, refl, (at, completed, waits))

after_opcode :
    (iem : InstIem) (last : Option StfBranch) (done : List StfBranch) (rec : OpcodeRecord)
    (found flagged : Bool) (reading : PartialBranch) (records : List TraceRecord)
    → Goes rec last done (found, reading)
    → (Waits none (with_target rec last done) reading.1
        → Ensures
            (NextCompletes none (with_target rec last done) (first_opcode records))
            (read_loop iem flagged reading records))
    → Ensures (NextCompletes last done (some rec)) (
        if found
        then ok (some reading.0, reading.1, records)
        else read_loop iem flagged reading records)
after_opcode iem last done rec true flagged reading records goes rest = gives _ (rec, refl, goes)
after_opcode iem last done rec false flagged reading records (waits, at) rest =
    Ensures-map _ (λ next. NextCompletes-passed rec last done (first_opcode records) next at)
      (rest waits)

after_operand :
    (iem : InstIem) (last : Option StfBranch) (done : List StfBranch) (found flagged : Bool)
    (reading : PartialBranch) (records : List TraceRecord)
    → (found ≡ false) × Waits last done reading.1
    → (Waits last done reading.1
        → Ensures
            (NextCompletes last done (first_opcode records))
            (read_loop iem flagged reading records))
    → Ensures (NextCompletes last done (first_opcode records)) (
        if found
        then ok (some reading.0, reading.1, records)
        else read_loop iem flagged reading records)
after_operand iem last done found flagged reading records (goes_on, waits) rest =
    rw goes_on (rest waits)

read_loop-NextCompletes :
    (iem : InstIem) (last : Option StfBranch) (done : List StfBranch) (flagged : Bool)
    (b : StfBranch) (r : BranchReader) (records : List TraceRecord)
    → Waits last done r
    → Ensures
        (NextCompletes last done (first_opcode records))
        (read_loop iem flagged (b, r) records)
unfolding read_loop first_opcode
read_loop-NextCompletes iem last done flagged b r [] h = gives _ tt
read_loop-NextCompletes iem last done flagged b r (opcode rec ∷ records) h =
    Ensures-bind _ (read_round-opcode iem last done flagged b r rec h) (λ round goes.
      after_opcode iem last done rec round.0 round.1 round.2 records goes (λ waits.
        read_loop-NextCompletes iem none (with_target rec last done) round.1 round.2.0 round.2.1
          records waits))
read_loop-NextCompletes iem last done flagged b r (event change user ∷ records) h =
    Ensures-bind _ (read_round-GoesOn iem last done flagged b r (event change user) refl h)
      (λ round goes.
        after_operand iem last done round.0 round.1 round.2 records goes (λ waits.
          read_loop-NextCompletes iem last done round.1 round.2.0 round.2.1 records waits))
read_loop-NextCompletes iem last done flagged b r (inst_reg t reg v ∷ records) h =
    Ensures-bind _ (read_round-GoesOn iem last done flagged b r (inst_reg t reg v) refl h)
      (λ round goes.
        after_operand iem last done round.0 round.1 round.2 records goes (λ waits.
          read_loop-NextCompletes iem last done round.1 round.2.0 round.2.1 records waits))
read_loop-NextCompletes iem last done flagged b r (mem_access ∷ records) h =
    Ensures-bind _ (read_round-GoesOn iem last done flagged b r mem_access refl h) (λ round goes.
      after_operand iem last done round.0 round.1 round.2 records goes
        (λ waits. read_loop-NextCompletes iem last done round.1 round.2.0 round.2.1 records waits))
read_loop-NextCompletes iem last done flagged b r (pc_target target ∷ records) h =
    Ensures-bind _ (read_round-GoesOn iem last done flagged b r (pc_target target) refl h)
      (λ round goes.
        after_operand iem last done round.0 round.1 round.2 records goes (λ waits.
          read_loop-NextCompletes iem last done round.1 round.2.0 round.2.1 records waits))
read_loop-NextCompletes iem last done flagged b r (other_record ∷ records) h =
    Ensures-bind _ (read_round-GoesOn iem last done flagged b r other_record refl h) (λ round goes.
      after_operand iem last done round.0 round.1 round.2 records goes
        (λ waits. read_loop-NextCompletes iem last done round.1 round.2.0 round.2.1 records waits))

-- If readNext_ returns a branch, the first opcode record that it read is at the target of the
-- taken branch that waited, if there was one, and that branch has this opcode as its target
-- opcode; no other branch got one. The returned branch waits for the opcode at its own target
-- if it is taken, and otherwise none does.
pub read_next_branch-completed :
    (iem : InstIem) (b b' : StfBranch) (r r' : BranchReader) (records left : List TraceRecord)
    → read_next_branch iem (b, r) records ≡ ok (some b', r', left)
    → (rec : OpcodeRecord) × (first_opcode records ≡ some rec)
      × IsAt rec r.last_branch
      × (r'.completed ≡ with_target rec r.last_branch r.completed)
      × (r'.last_branch ≡ (if b'.taken then some b' else none))
unfolding read_next_branch reset_operand_maps
read_next_branch-completed iem b b' r r' records left found =
    let (rec, first, (at, completed, waits)) =
      Ensures-ok (NextCompletes r.last_branch r.completed (first_opcode records))
        (read_loop-NextCompletes iem r.last_branch r.completed false (reset b)
          (update_skipping (reset_operand_maps r)) records
          (update_skipping-Waits r.last_branch r.completed (reset_operand_maps r) (refl, refl)))
        found in
    (rec, first, at, completed, waits)
