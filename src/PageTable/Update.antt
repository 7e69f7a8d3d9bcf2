-- ===== src/PageTable/Update.antt =====
-- `PageTableMap::update` of stf-inc/stf_page_table.hpp: what a walk leaves in the table.
use stf_lib.Common.{ℕ, ◌≤◌, ◌<◌, ◌≡◌, ◌≢◌, refl, ap, ◌∙◌, arith, inl, inr}
use stf_lib.Common.{true, false, ltb, ◌==◌, if◌then◌else◌, Bool-cases, option_cases}
use stf_lib.Common.{[], ◌∷◌, Option, none, some, ok}
use stf_lib.PageTable.{
  PageTableEntry, Versions, Pages, version_at, emplace, find, store, same_entry, update_entry,
}
use mathlib.Core.Path.{subst}
use stf_lib.PageTable.Versions.{
  IsSorted, IsBelow, version_at-emplace, version_at-IsAtMost, IsAtMost,
}

-- The versions of every entry are sorted.
abbrev pub IsValid : Pages → Type 0
IsValid [] = Unit
IsValid ((addr, versions) ∷ pages) = IsSorted versions × IsValid pages

-- The entry at an address that an instruction sees.
abbrev pub seen : Option Versions → ℕ → Option PageTableEntry
seen none index = none
seen (some versions) index = elim (version_at versions index) [
  | none ↦ none
  | some (key, entry) ↦ some entry
]

find-store :
    (addr : ℕ) (versions : Versions) (pages : Pages) (other : ℕ)
    → find (store addr versions pages) other
      ≡ (if addr == other then some versions else find pages other)
unfolding find store
find-store addr versions [] other = refl
find-store addr versions ((key, old) ∷ pages) other =
    ground (arith, find-store addr versions pages other)

abbrev IsSortedIfFound : Option Versions → Type 0
IsSortedIfFound none = Unit
IsSortedIfFound (some versions) = IsSorted versions

find-IsSorted : (pages : Pages) (addr : ℕ) → IsValid pages → IsSortedIfFound (find pages addr)
unfolding find
find-IsSorted [] addr v = tt
find-IsSorted ((key, old) ∷ pages) addr (s, v) = elim (Bool-cases (key == addr)) [
  | inl t ↦ rw t s
  | inr f ↦ rw f (find-IsSorted pages addr v)
]

store-IsValid :
    (addr : ℕ) (versions : Versions) (pages : Pages)
    → IsSorted versions
    → IsValid pages
    → IsValid (store addr versions pages)
unfolding store
store-IsValid addr versions [] s v = (s, tt)
store-IsValid addr versions ((key, old) ∷ pages) s (o, v) = elim (Bool-cases (key == addr)) [
  | inl t ↦ rw t (s, v)
  | inr f ↦ rw f (o, store-IsValid addr versions pages s v)
]

emplace-IsBelow :
    (low index : ℕ) (entry : PageTableEntry) (versions : Versions)
    → low < index
    → IsBelow low versions
    → IsBelow low (emplace index entry versions)
unfolding emplace
emplace-IsBelow low index entry [] h b = h
emplace-IsBelow low index entry ((key, old) ∷ versions) h b = elim (Bool-cases (ltb index key)) [
  | inl t ↦ rw t h
  | inr f ↦ rw f (elim (Bool-cases (index == key)) [ inl t ↦ rw t b | inr g ↦ rw g b ])
]

emplace-IsSorted :
    (index : ℕ) (entry : PageTableEntry) (versions : Versions)
    → IsSorted versions
    → IsSorted (emplace index entry versions)
unfolding emplace
emplace-IsSorted index entry [] s = (tt, tt)
emplace-IsSorted index entry ((key, old) ∷ versions) (b, s) = elim (Bool-cases (ltb index key)) [
  | inl t ↦ let before : index < key = ground arith in rw t (before, (b, s))
  | inr f ↦ rw f (elim (Bool-cases (index == key)) [
    | inl t ↦ rw t (b, s)
    | inr g ↦
        let after : key < index = ground arith in
        rw g (
          emplace-IsBelow key index entry versions after b,
          emplace-IsSorted index entry versions s,
        )
  ])
]

same_entry-eq : (a b : PageTableEntry) → same_entry a b ≡ true → a ≡ b
unfolding same_entry
same_entry-eq a b e = ground arith

-- A table `after` in which the instruction at `index` sees `entry` at `addr`, and that has all else
-- of the table `before`.
abbrev pub Sees : ℕ → ℕ → PageTableEntry → Pages → Pages → Type 0
Sees index addr entry before after =
    IsValid after
    × (seen (find after addr) index ≡ some entry)
    × ((other : ℕ) → other ≢ addr → find after other ≡ find before other)

store-Sees :
    (index addr : ℕ) (entry : PageTableEntry) (pages : Pages) (versions : Versions)
    → IsValid pages
    → IsSorted versions
    → seen (some versions) index ≡ some entry
    → Sees index addr entry pages (store addr versions pages)
store-Sees index addr entry pages versions v s e = (
  store-IsValid addr versions pages s v,
  let found : find (store addr versions pages) addr ≡ some versions =
        ground (arith, find-store addr versions pages addr) in
      ap (λ (o : Option Versions). seen o index) found ∙ e,
  λ other n. find-store addr versions pages other ∙ ground arith,
)

emplace-seen :
    (index key : ℕ) (entry current : PageTableEntry) (versions : Versions)
    → IsSorted versions
    → version_at versions index ≡ some (key, current)
    → (key == index) ≡ false
    → seen (some (emplace index entry versions)) index ≡ some entry
emplace-seen index key entry current versions s g n =
    let bound : key ≤ index = subst (IsAtMost index) g (version_at-IsAtMost versions index) in
    ground (arith, version_at-emplace index entry versions index s, g)

-- If the update of an entry of a valid page table succeeds, the instruction of the walk sees
-- the new entry, every other address has the versions that it had, and the table stays valid.
pub update_entry-Sees :
    (index addr : ℕ) (entry : PageTableEntry) (pages : Pages) {pages' : Pages}
    → IsValid pages
    → update_entry index addr entry pages ≡ ok pages'
    → Sees index addr entry pages pages'
unfolding update_entry version_at
update_entry-Sees index addr entry pages {pages'} v e = elim (option_cases (find pages addr)) [
  | inl n ↦
      let same : pages' ≡ store addr ((index, entry) ∷ []) pages = ground (arith, n) in
      rw same (store-Sees index addr entry pages ((index, entry) ∷ []) v (tt, tt) (ground arith))
  | inr (versions, f) ↦
      let s : IsSorted versions = subst IsSortedIfFound f (find-IsSorted pages addr v) in
      elim (option_cases (version_at versions index)) [
        | inl n ↦ absurd (ground (arith, f, n))
        | inr ((key, current), g) ↦ elim (Bool-cases (same_entry current entry)) [
          | inl t ↦
              let same : pages' ≡ pages = ground (arith, f, g, t) in
              rw same (v, ground (arith, f, g, same_entry-eq current entry t), λ other n. refl)
          | inr t ↦ elim (Bool-cases (key == index)) [
            | inl n ↦ absurd (ground (arith, f, g, t, n))
            | inr n ↦
                let same : pages' ≡ store addr (emplace index entry versions) pages =
                  ground (arith, f, g, t, n) in
                rw same (
                  store-Sees index addr entry pages (emplace index entry versions) v
                    (emplace-IsSorted index entry versions s)
                    (emplace-seen index key entry current versions s g n))
          ]
        ]
      ]
]
