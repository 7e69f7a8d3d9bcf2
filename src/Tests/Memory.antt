-- ===== src/Tests/Memory.antt =====
-- A page table of two walks and a SATP, for stf-inc/stf_page_table.hpp and
-- stf-inc/stf_satp_decoder.hpp.
use stf_lib.Common.{◌≡◌, refl, arith}
use stf_lib.Common.{true, false}
use stf_lib.Common.{[], ◌∷◌, some, ok}
use stf_lib.PageTable.{
  VaMode, PageTableEntry, Versions, Pages, version_at, emplace, find, store, same_entry,
  update_entry,
}
use stf_lib.PageTable.Update.{Sees, update_entry-Sees}
use stf_lib.PageTable.Satp.{decode_satp64, decode_satp64-satp64}

abbrev first_entry : PageTableEntry
first_entry = record { phys_addr = 0x200000; is_leaf = false }

abbrev second_entry : PageTableEntry
second_entry = record { phys_addr = 0x80000000; is_leaf = true }

-- The root at 0x1000, of which entry 2 changes at the instruction 50 from a pointer to a leaf.
abbrev one_version : Versions
one_version = (10, first_entry) ∷ []

abbrev old_table : Pages
old_table = (0x1010, one_version) ∷ []

abbrev new_table : Pages
new_table = (0x1010, (10, first_entry) ∷ (50, second_entry) ∷ []) ∷ []

update_entry-Sees_example : Sees 50 0x1010 second_entry old_table new_table
unfolding update_entry find store emplace version_at same_entry
update_entry-Sees_example =
    update_entry-Sees 50 0x1010 second_entry old_table {pages' = new_table} ((tt, tt), tt) refl

-- Before instruction 50 the root leads to a table at 0x200000, and that to a page of 2 MiB.
abbrev small_page : PageTableEntry
small_page = record { phys_addr = 0x40000000; is_leaf = true }

abbrev two_levels : Pages
two_levels =
    (0x1010, (10, first_entry) ∷ (50, second_entry) ∷ []) ∷ (0x200000, (10, small_page) ∷ []) ∷ []

-- Sv48 with the root at 0x80200000.
decode_satp64-satp64_example :
    decode_satp64 0x9000000000080200
    ≡ ok (record { base_addr = 0x80200000; va_mode = some VaMode.sv48 })
decode_satp64-satp64_example =
    decode_satp64-satp64 9 0 0x80200 (omega arith) (omega arith) (omega arith)
