-- ===== src/PageTable/Translate.antt =====
-- `PageTableMap::translate` of stf-inc/stf_page_table.hpp: the address that it computes, against a
-- relation that follows the tables in plain arithmetic.
use stf_lib.Common.{ℕ, suc, true, false, ◌+◌, ◌-◌, ◌*◌, ◌/◌, ◌%◌, ◌^◌, ◌≤◌, ◌<◌, ◌≡◌}
use stf_lib.Common.{bit_and, bit_or, Option, none, some, Result, ok, err}
use stf_lib.PageTable.{
  VaMode, PageTableError, PageTableEntry, Pages, Versions, find, version_at, pte_shift,
}
use stf_lib.PageTable.{virt_addr_size, vpn_size, page_offset_size}
use stf_lib.ByteUtils.{bit_mask, shr}

abbrev pub vpn_of : VaMode → ℕ → ℕ
vpn_of mode va = shr (bit_and va (bit_mask 64 (virt_addr_size mode))) page_offset_size

abbrev pub levels_of : VaMode → ℕ
levels_of mode = (virt_addr_size mode - page_offset_size) / vpn_size mode

-- The number of the entry at a level, and the address of that entry.
abbrev pub vpn_field : VaMode → ℕ → ℕ → ℕ
vpn_field mode va level = va / 2 ^ (12 + vpn_size mode * level) % 2 ^ vpn_size mode

abbrev pub pte_addr : VaMode → ℕ → ℕ → ℕ → ℕ
pte_addr mode va base level = (base + vpn_field mode va level * 2 ^ pte_shift mode) % 2 ^ 64

-- The entry at an address, as the instruction `index` sees it.
pub record HasEntry (pages : Pages) (index addr : ℕ) (entry : PageTableEntry) : Type 0 where
  pub versions : Versions
  pub since : ℕ
  pub stored : find pages addr ≡ some versions
  pub current : version_at versions index ≡ some (since, entry)

-- Where the tables lead an address, from the table at `base` with `levels` levels left: to a page
-- and the width of its number, or nowhere.
pub data LeadsTo (mode : VaMode) (pages : Pages) (va index : ℕ)
    : (base levels : ℕ) → Option (ℕ × ℕ) → Type 0 where
  leaf :
      (base level page : ℕ) (entry : PageTableEntry)
      → HasEntry pages index (pte_addr mode va base level) entry
      → entry.is_leaf ≡ true
      → entry.phys_addr ≡ page * 2 ^ (vpn_size mode * level + 12)
      → LeadsTo mode pages va index base (suc level) (some (page, vpn_size mode * level))
  table :
      (base level : ℕ) (entry : PageTableEntry) (o : Option (ℕ × ℕ))
      → HasEntry pages index (pte_addr mode va base level) entry
      → entry.is_leaf ≡ false
      → LeadsTo mode pages va index entry.phys_addr level o
      → LeadsTo mode pages va index base (suc level) o
  never_seen :
      (base level : ℕ)
      → find pages (pte_addr mode va base level) ≡ none
      → LeadsTo mode pages va index base (suc level) none
  not_yet_seen :
      (base level : ℕ) (versions : Versions)
      → find pages (pte_addr mode va base level) ≡ some versions
      → version_at versions index ≡ none
      → LeadsTo mode pages va index base (suc level) none
  no_leaf : (base : ℕ) → LeadsTo mode pages va index base 0 none

-- What the loop of `translate` finds.
abbrev leaf_address : Option (ℕ × ℕ) → Option (ℕ × ℕ)
leaf_address none = none
leaf_address (some (page, shift)) = some (page * 2 ^ (shift + 12), shift)

-- The translation by what the tables lead to.
abbrev pub translated : ℕ → ℕ → Option (ℕ × ℕ) → Result PageTableError ℕ
translated va index none = err (PageTableError.translation va index)
translated va index (some (page, shift)) = ok (page * 2 ^ (shift + 12) + va % 2 ^ (shift + 12))

abbrev pub IsPage : Option (ℕ × ℕ) → Type 0
IsPage none = Unit
IsPage (some (page, shift)) = (page * 2 ^ (shift + 12) < 2 ^ 64) × (shift ≤ 52)

-- The end of `translate`, for the leaf that the loop found.
abbrev located : ℕ → ℕ → Option (ℕ × ℕ) → Result PageTableError ℕ
located va index none = err (PageTableError.translation va index)
located va index (some (addr, shift)) = ok (bit_or addr (bit_and va (bit_mask 64 (shift + 12))))
