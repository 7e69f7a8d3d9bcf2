-- ===== src/BranchReader/Indices.antt =====
-- stf-inc/stf_branch_reader.hpp: the indices of all branches of a trace.
use stf_lib.Common.{ℕ, zero, suc, ◌+◌, ◌-◌, ◌≤◌, Bool, if◌then◌else◌, Bool-cases, inl, inr}
use stf_lib.Common.{ok, ◌>>=◌, Option, none, some, List, [], ◌∷◌}
use stf_lib.Common.{◌≡◌, refl, arith, Ensures, Ensures-bind, Ensures-ok, gives}
use mathlib.Core.Path.{subst}
use stf_lib.Branch.Decoder.{InstIem}
use stf_lib.Branch.Item.{StfBranch}
use stf_lib.BranchReader.{
  TraceRecord, BranchReader, read_branches, skipped_branch_cleanup, new_branch_reader,
}
use stf_lib.BranchReader.Numbers.{Counts, NextNumbered, read_next_branch-Ensures}

-- The kept branches are numbered on from `k`, and a skipped one has the number of the next kept one.
abbrev pub Consecutive : ℕ → List StfBranch → Type 0
Consecutive k [] = Unit
Consecutive k (b ∷ bs) = (b.index ≡ suc k) × Consecutive (if b.skipped then k else suc k) bs

module _ (iem : InstIem) (slot : StfBranch) where
  abbrev after_item : StfBranch → BranchReader → BranchReader
  after_item b r = if b.skipped then skipped_branch_cleanup r else r

  after_item-Counts :
      (n s : ℕ) (b : StfBranch) (r : BranchReader) → Counts n s r → Counts n s (after_item b r)
  unfolding skipped_branch_cleanup
  after_item-Counts n s b r h = elim (Bool-cases (b.skipped)) [
    | inl skipped ↦ rw skipped h
    | inr kept ↦ rw kept h
  ]

  abbrev later : ℕ → StfBranch → ℕ
  later s b = if b.skipped then s + 1 else s

  later_count :
      (n s : ℕ) (b : StfBranch)
      → s ≤ n
      → (later s b ≤ n + 1) × (n + 1 - later s b ≡ (if b.skipped then n - s else suc (n - s)))
  later_count n s b few = elim (Bool-cases (b.skipped)) [
    | inl skipped ↦ rw skipped (omega arith, omega arith)
    | inr kept ↦ rw kept (omega arith, omega arith)
  ]

  after_next :
      (count n s : ℕ)
      → s ≤ n
      → (next : Option StfBranch) (r : BranchReader) (left : List TraceRecord)
      → NextNumbered n s (next, r, left)
      → ((n' s' : ℕ) (r' : BranchReader)
          → s' ≤ n'
          → Counts n' s' r'
          → Ensures (Consecutive (n' - s')) (read_branches count iem slot r' left))
      → Ensures (Consecutive (n - s)) (elim next [
        | none ↦ ok []
        | some b ↦ (read_branches count iem slot (after_item b r) left >>= λ rest. ok (b ∷ rest))
      ])
  after_next count n s few none r left numbered rest = gives [] tt
  after_next count n s few (some b) r left (raw, index, read, skipped) rest =
      let (few', same) = later_count n s b few in
      Ensures-bind (Consecutive (n - s))
        (rest (n + 1) (later s b) (after_item b r) few'
          (after_item-Counts (n + 1) (later s b) b r (read, skipped)))
        (λ bs consecutive.
          gives (b ∷ bs)
            (omega (arith, index, few), subst (λ (k : ℕ). Consecutive k bs) same consecutive))

  read_branches-Ensures :
      (count n s : ℕ) (r : BranchReader) (records : List TraceRecord)
      → s ≤ n
      → Counts n s r
      → Ensures (Consecutive (n - s)) (read_branches count iem slot r records)
  unfolding read_branches
  read_branches-Ensures zero n s r records few h = gives [] tt
  read_branches-Ensures (suc count) n s r records few h =
      Ensures-bind (Consecutive (n - s)) (read_next_branch-Ensures n s iem slot r records h)
        (λ next numbered.
          after_next count n s few next.0 next.1 next.2 numbered
            (λ n' s' r'. read_branches-Ensures count n' s' r' next.2))

-- If a new branch reader reads a number of branches without an error, those that are not
-- skipped have the indices 1, 2, 3 and so on, and a skipped one has the index of the next that
-- is not.
pub read_branches-Consecutive :
    (iem : InstIem) (slot : StfBranch) (only_user_mode : Bool) (count : ℕ)
    (records : List TraceRecord) (bs : List StfBranch)
    → read_branches count iem slot (new_branch_reader only_user_mode) records ≡ ok bs
    → Consecutive 0 bs
unfolding new_branch_reader
read_branches-Consecutive iem slot only_user_mode count records bs read =
    Ensures-ok (Consecutive 0)
      (read_branches-Ensures iem slot count 0 0 (new_branch_reader only_user_mode) records
        (omega arith) (refl, refl))
      read
