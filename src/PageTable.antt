-- ===== src/PageTable.antt =====
-- The page tables that a trace describes: stf-inc/stf_page_table.hpp, with the parameters of
-- stf-inc/stf_virt_addr_modes.hpp. A page table entry has versions, each from the index of the
-- instruction whose walk found it. A flat_map is a list sorted by its keys, an unordered_map an
-- association list. An address has 64 bits.
pub mod Versions
pub mod Update
pub mod Translate
pub mod Satp
use stf_lib.Common.{
  ℕ, zero, suc, ◌+◌, ◌-◌, ◌*◌, ◌/◌, ◌%◌, ◌^◌, Bool, true, false, not, ◌&&◌, ltb, leb, ◌==◌,
  if◌then◌else◌,
}
use stf_lib.Common.{bit_and, bit_or, List, [], ◌∷◌, Option, none, some, Result, ok, err, ◌>>=◌}
use stf_lib.ByteUtils.{bit_mask, shl, shr}

-- VAMode without the mode that does not translate.
pub data VaMode : Type 0 where
  sv32 sv39 sv48 sv57 : VaMode

-- VAProperties
abbrev pub phys_addr_size : VaMode → ℕ
phys_addr_size sv32 = 34
phys_addr_size mode = 56

abbrev pub virt_addr_size : VaMode → ℕ
virt_addr_size sv32 = 32
virt_addr_size sv39 = 39
virt_addr_size sv48 = 48
virt_addr_size sv57 = 57

abbrev pub vpn_size : VaMode → ℕ
vpn_size sv32 = 10
vpn_size mode = 9

abbrev pub pte_shift : VaMode → ℕ
pte_shift sv32 = 2
pte_shift mode = 3

abbrev pub page_offset_size : ℕ
page_offset_size = 12

pub data PageTableError : Type 0 where
  no_version two_values : PageTableError
  translation : ℕ → ℕ → PageTableError

pub record PageTableEntry : Type 0 where
  pub phys_addr : ℕ
  pub is_leaf : Bool

-- The constructor of PageTableEntry, with `getAddr_` and `getLeaf_`.
unfoldable pub new_entry : VaMode → ℕ → PageTableEntry
new_entry mode pte_value = record {
  phys_addr =
      bit_and (shl 64 (shr pte_value 10) page_offset_size) (bit_mask 64 (phys_addr_size mode));
  is_leaf = not (bit_and pte_value 0xa == 0);
}

unfoldable pub same_entry : PageTableEntry → PageTableEntry → Bool
same_entry a b =
    let same_kind = if a.is_leaf then b.is_leaf else not b.is_leaf in
    a.phys_addr == b.phys_addr && same_kind

abbrev pub Versions : Type 0
Versions = List (ℕ × PageTableEntry)

-- The entry before `upper_bound(index)`, if there is one.
unfoldable pub version_at : Versions → ℕ → Option (ℕ × PageTableEntry)
version_at [] index = none
version_at ((key, entry) ∷ versions) index =
    let later = version_at versions index in
    if leb key index
    then elim later [ none ↦ some (key, entry) | some found ↦ some found ]
    else none

-- `emplace` of a flat_map: a key that is there keeps its value.
unfoldable pub emplace : ℕ → PageTableEntry → Versions → Versions
emplace index entry [] = (index, entry) ∷ []
emplace index entry ((key, old) ∷ versions) =
    let rest = emplace index entry versions in
    if ltb index key
    then (index, entry) ∷ (key, old) ∷ versions
    else if index == key
    then (key, old) ∷ versions
    else (key, old) ∷ rest

-- `phys_pages_`: the versions of each entry, by its address.
abbrev pub Pages : Type 0
Pages = List (ℕ × Versions)

unfoldable pub find : Pages → ℕ → Option Versions
find [] addr = none
find ((key, versions) ∷ pages) addr =
    let rest = find pages addr in if key == addr then some versions else rest

unfoldable pub store : ℕ → Versions → Pages → Pages
store addr versions [] = (addr, versions) ∷ []
store addr versions ((key, old) ∷ pages) =
    let rest = store addr versions pages in
    if key == addr then (key, versions) ∷ pages else (key, old) ∷ rest

-- The body of the loop of `update`, for an entry at `addr`.
unfoldable pub update_entry : ℕ → ℕ → PageTableEntry → Pages → Result PageTableError Pages
update_entry index addr entry pages = elim (find pages addr) [
  | none ↦ ok (store addr ((index, entry) ∷ []) pages)
  | some versions ↦ elim (version_at versions index) [
    | none ↦ err no_version
    | some (key, current) ↦
        if same_entry current entry
        then ok pages
        else if key == index
        then err two_values
        else ok (store addr (emplace index entry versions) pages)
  ]
]

-- `update`, with the addresses and the values of the entries of a walk.
unfoldable pub update : VaMode → ℕ → List (ℕ × ℕ) → Pages → Result PageTableError Pages
update mode index [] pages = ok pages
update mode index ((addr, value) ∷ ptes) pages =
    update_entry index addr (new_entry mode value) pages >>= λ pages1. update mode index ptes pages1

-- The entry of a table that the instruction `index` sees, if there is one, and what the loop of
-- `translate` makes of it: the address of a leaf with the shift of its virtual page number, or what
-- the lower table has.
abbrev pub seen : Option Versions → ℕ → Option (ℕ × PageTableEntry)
seen none index = none
seen (some versions) index = version_at versions index

abbrev pub descend : Option (ℕ × PageTableEntry) → ℕ → (ℕ → Option (ℕ × ℕ)) → Option (ℕ × ℕ)
descend none shift lower = none
descend (some (key, entry)) shift lower =
    if entry.is_leaf then some (entry.phys_addr, shift) else lower entry.phys_addr

-- The loop of `translate` with `levels` virtual page numbers left.
unfoldable pub walk : VaMode → Pages → ℕ → ℕ → ℕ → ℕ → Option (ℕ × ℕ)
walk mode pages vpn index base zero = none
walk mode pages vpn index base (suc levels) =
    let shift = vpn_size mode * levels in
    let field = bit_and (shr vpn shift) (bit_mask 64 (vpn_size mode)) in
    let next_pte_addr = (base + shl 64 field (pte_shift mode)) % 2 ^ 64 in
    descend (seen (find pages next_pte_addr) index) shift
      (λ addr. walk mode pages vpn index addr levels)

-- `translate` of a table whose SATP has the address `base`.
unfoldable pub translate : VaMode → Pages → ℕ → ℕ → ℕ → Result PageTableError ℕ
translate mode pages base orig_va index =
    let vpn = shr (bit_and orig_va (bit_mask 64 (virt_addr_size mode))) page_offset_size in
    let levels = (virt_addr_size mode - page_offset_size) / vpn_size mode in
    elim (walk mode pages vpn index base levels) [
      | none ↦ err (translation orig_va index)
      | some (addr, shift) ↦
          ok (bit_or addr (bit_and orig_va (bit_mask 64 (shift + page_offset_size))))
    ]
