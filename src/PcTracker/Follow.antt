-- ===== src/PcTracker/Follow.antt =====
-- stf-inc/stf_pc_tracker.hpp: the tracked PC against the PC that the program has.
use stf_lib.Common.{
  ℕ, ◌+◌, ◌%◌, ◌^◌, Bool, false, if◌then◌else◌, Bool-cases, inl, inr, List, [], ◌∷◌, ◌++◌, map,
}
use stf_lib.Common.{◌≡◌, refl, ap, ◌∙◌}
use stf_lib.PcTracker.{
  PcTracker, PcRecord, force_pc_record, pc_target_record, opcode_record, set_target_pc, track,
  track_opcode, track_all,
}

-- An instruction of the trace: the targets that are recorded before its opcode, of a taken branch,
-- an exception or an interrupt, and its size.
pub record Instruction : Type 0 where
  pub targets : List ℕ
  pub size : ℕ

abbrev pub records_of : Instruction → List PcRecord
records_of i = map pc_target_record i.targets ++ opcode_record i.size ∷ []

-- The program: it goes on at the last target that is recorded, or at the next instruction.
abbrev pub go_on : ℕ → ℕ → List ℕ → ℕ
go_on offset pc [] = pc
go_on offset pc (target ∷ targets) = go_on offset ((target + offset) % 2 ^ 64) targets

abbrev pub executed : ℕ → ℕ → List Instruction → List ℕ
executed offset pc [] = []
executed offset pc (i ∷ is) =
    pc ∷ executed offset (go_on offset ((pc + i.size) % 2 ^ 64) i.targets) is

-- The tracker: its PC after each opcode.
unfoldable pub followed : PcTracker → List Instruction → List ℕ
followed t [] = []
followed t (i ∷ is) = let t' : PcTracker = track_all t (records_of i) in t'.pc ∷ followed t' is

-- Where the tracker goes on after an opcode of `size` bytes.
abbrev pending : PcTracker → ℕ → ℕ
pending t size = if t.is_branch then t.target_pc else (t.next_pc + size) % 2 ^ 64

abbrev At : PcTracker → ℕ → ℕ → ℕ → Type 0
At t pc next offset =
    (t.pc ≡ pc) × (t.next_pc ≡ next) × (t.is_branch ≡ false) × (t.pc_offset ≡ offset)

track_opcode-At :
    (t : PcTracker) (size : ℕ) → At (track_opcode t size) t.next_pc (pending t size) t.pc_offset
unfolding track_opcode
track_opcode-At t size = elim (Bool-cases (t.is_branch)) [
  | inl jump ↦ rw jump (refl, refl, refl, refl)
  | inr straight ↦ rw straight (refl, refl, refl, refl)
]

track_all-At :
    (targets : List ℕ) (t : PcTracker) (size : ℕ)
    → At
        (track_all t (map pc_target_record targets ++ opcode_record size ∷ []))
        t.next_pc
        (go_on t.pc_offset (pending t size) targets)
        t.pc_offset
unfolding track_all track
track_all-At [] t size = track_opcode-At t size
track_all-At (target ∷ targets) t size = track_all-At targets (set_target_pc t target) size

followed-At :
    (is : List Instruction) (t : PcTracker) (pc next offset : ℕ)
    → At t pc next offset
    → followed t is ≡ executed offset next is
unfolding followed
followed-At [] t pc next offset h = refl
followed-At (i ∷ is) t pc next offset (at_pc, at_next, straight, same_offset) =
    let t' : PcTracker = track_all t (records_of i) in
    let (pc', next', straight', offset') = track_all-At i.targets t i.size in
    let head : t'.pc ≡ next = pc' ∙ at_next in
    let next_there : t'.next_pc ≡ go_on offset ((next + i.size) % 2 ^ 64) i.targets =
      next'
      ∙ ap
          (λ (b : Bool).
            go_on t.pc_offset (if b then t.target_pc else (t.next_pc + i.size) % 2 ^ 64) i.targets)
          straight
      ∙ ap (λ (n : ℕ). go_on t.pc_offset ((n + i.size) % 2 ^ 64) i.targets) at_next
      ∙ ap (λ (o : ℕ). go_on o ((next + i.size) % 2 ^ 64) i.targets) same_offset in
    let rest : followed t' is
        ≡ executed offset (go_on offset ((next + i.size) % 2 ^ 64) i.targets) is =
      followed-At is t' t'.pc _ offset (refl, next_there, straight', offset' ∙ same_offset) in
    cc

-- If no target is pending when a FORCE_PC record is tracked, the tracked PC after each opcode
-- that follows is the one at which the program executes it: the forced address plus the
-- offset, then each time the last target recorded before that opcode plus the offset, or the
-- next address if there is none, all modulo 2 to the 64.
pub followed-force_pc :
    (is : List Instruction) (t : PcTracker) (addr : ℕ)
    → t.is_branch ≡ false
    → followed (track t (force_pc_record addr)) is
      ≡ executed t.pc_offset ((addr + t.pc_offset) % 2 ^ 64) is
unfolding track
followed-force_pc is t addr straight =
    followed-At is (record t { next_pc = (addr + t.pc_offset) % 2 ^ 64 }) t.pc _ t.pc_offset
      (refl, refl, straight, refl)
