-- ===== src/PageTable/Versions.antt =====
-- The flat_map of a page table entry's versions in stf-inc/stf_page_table.hpp: which one an
-- instruction sees.
use stf_lib.Common.{ℕ, ◌≤◌, ◌<◌, ◌≡◌, refl, ap, ◌∙◌, arith, inl, inr}
use stf_lib.Common.{◌&&◌, ltb, leb, ◌==◌, if◌then◌else◌, Bool-cases}
use stf_lib.Common.{[], ◌∷◌, Option, none, some}
use stf_lib.PageTable.{PageTableEntry, Versions, version_at, emplace}

-- The keys ascend.
abbrev pub IsBelow : ℕ → Versions → Type 0
IsBelow key [] = Unit
IsBelow key ((next, entry) ∷ versions) = key < next

abbrev pub IsSorted : Versions → Type 0
IsSorted [] = Unit
IsSorted ((key, entry) ∷ versions) = IsBelow key versions × IsSorted versions

-- The version that an instruction sees, when there is a new one from `index` on.
abbrev pub with_version :
    ℕ → PageTableEntry → ℕ → Option (ℕ × PageTableEntry) → Option (ℕ × PageTableEntry)
with_version index entry at none = if leb index at then some (index, entry) else none
with_version index entry at (some (key, x)) =
    if leb index at && ltb key index then some (index, entry) else some (key, x)

-- The entry of a list of versions, when that of the rest is known.
abbrev or_first : ℕ → PageTableEntry → ℕ → Option (ℕ × PageTableEntry) → Option (ℕ × PageTableEntry)
or_first key entry at later =
    if leb key at then elim later [ none ↦ some (key, entry) | some found ↦ some found ] else none

abbrev pub IsBetween : ℕ → ℕ → Option (ℕ × PageTableEntry) → Type 0
IsBetween low high none = Unit
IsBetween low high (some (key, x)) = (low ≤ key) × (key ≤ high)

or_first-IsBetween :
    (low key : ℕ) (entry : PageTableEntry) (at : ℕ) (o : Option (ℕ × PageTableEntry))
    → low < key
    → IsBetween key at o
    → IsBetween low at (or_first key entry at o)
or_first-IsBetween low key entry at none h b = elim (Bool-cases (leb key at)) [
  | inl t ↦ rw t (omega arith, ground arith)
  | inr f ↦ rw f tt
]
or_first-IsBetween low key entry at (some (k, z)) h (b, c) = elim (Bool-cases (leb key at)) [
  | inl t ↦ rw t (omega arith, c)
  | inr f ↦ rw f tt
]

pub version_at-IsBetween :
    (key : ℕ) (versions : Versions) (at : ℕ)
    → IsBelow key versions
    → IsSorted versions
    → IsBetween key at (version_at versions at)
unfolding version_at
version_at-IsBetween key [] at below h = tt
version_at-IsBetween key ((next, entry) ∷ versions) at below (above, h) =
    or_first-IsBetween key next entry at (version_at versions at) below
      (version_at-IsBetween next versions at above h)

-- The version that is found begins at the instruction or before.
abbrev pub IsAtMost : ℕ → Option (ℕ × PageTableEntry) → Type 0
IsAtMost at none = Unit
IsAtMost at (some (key, x)) = key ≤ at

or_first-IsAtMost :
    (key : ℕ) (entry : PageTableEntry) (at : ℕ) (o : Option (ℕ × PageTableEntry))
    → IsAtMost at o
    → IsAtMost at (or_first key entry at o)
or_first-IsAtMost key entry at none h = elim (Bool-cases (leb key at)) [
  | inl t ↦ rw t (ground arith)
  | inr f ↦ rw f tt
]
or_first-IsAtMost key entry at (some (k, z)) h = elim (Bool-cases (leb key at)) [
  | inl t ↦ rw t h
  | inr f ↦ rw f tt
]

pub version_at-IsAtMost : (versions : Versions) (at : ℕ) → IsAtMost at (version_at versions at)
unfolding version_at
version_at-IsAtMost [] at = tt
version_at-IsAtMost ((key, entry) ∷ versions) at =
    or_first-IsAtMost key entry at (version_at versions at) (version_at-IsAtMost versions at)

-- A new version before all others, in the place of one, or behind the first.
new_first :
    (index : ℕ) (entry : PageTableEntry) (at : ℕ) (o : Option (ℕ × PageTableEntry))
    → IsBetween index at o
    → or_first index entry at o ≡ with_version index entry at o
new_first index entry at none b = refl
new_first index entry at (some (k, z)) b = ground arith

new_same :
    (key : ℕ) (old entry : PageTableEntry) (at : ℕ) (o : Option (ℕ × PageTableEntry))
    → IsBetween key at o
    → or_first key old at o ≡ with_version key entry at (or_first key old at o)
new_same key old entry at none b = ground arith
new_same key old entry at (some (k, z)) b = ground arith

new_later :
    (key index : ℕ) (old entry : PageTableEntry) (at : ℕ) (o : Option (ℕ × PageTableEntry))
    → key < index
    → or_first key old at (with_version index entry at o)
      ≡ with_version index entry at (or_first key old at o)
new_later key index old entry at none h = ground arith
new_later key index old entry at (some (k, z)) h = ground arith

-- In a sorted list of versions, an instruction sees the version that is put in if it begins at
-- that instruction or before and after the one seen so far; otherwise it sees what it saw.
pub version_at-emplace :
    (index : ℕ) (entry : PageTableEntry) (versions : Versions) (at : ℕ)
    → IsSorted versions
    → version_at (emplace index entry versions) at
      ≡ with_version index entry at (version_at versions at)
unfolding version_at emplace
version_at-emplace index entry [] at h = refl
version_at-emplace index entry ((key, old) ∷ versions) at (below, h) =
    let later : Option (ℕ × PageTableEntry) = version_at versions at in
    elim (Bool-cases (ltb index key)) [
      | inl t ↦
          let before : index < key = ground arith in
          rw t (
            new_first index entry at (version_at ((key, old) ∷ versions) at)
              (version_at-IsBetween index ((key, old) ∷ versions) at before (below, h)))
      | inr f ↦ rw f (elim (Bool-cases (index == key)) [
        | inl t ↦
            let same : key ≡ index = ground arith in
            rw t (
              new_same key old entry at later (version_at-IsBetween key versions at below h)
              ∙ ap (λ (t : ℕ). with_version t entry at (or_first key old at later)) same)
        | inr g ↦
            let after : key < index = ground arith in
            rw g (
              rw (version_at-emplace index entry versions at h)
                (new_later key index old entry at later after))
      ])
    ]
