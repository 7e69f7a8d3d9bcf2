-- ===== src/RegState/Parents.antt =====
-- The fields in the bank that `initRegBank` sets up.
use stf_lib.Common.{
  ℕ, ◌+◌, ◌≡◌, refl, arith, Bool, true, false, not, ◌&&◌, ◌||◌, leb, ◌==◌, if◌then◌else◌, List, [],
  ◌∷◌, Option, none, some, Result, ok, err, ◌>>=◌, ◌⊎◌, inl, inr, Yields, yields,
}
use stf_lib.ByteUtils.{bit_mask}
use stf_lib.Record.{Isa}
use stf_lib.Branch.Decoder.{InstIem}
use stf_lib.Registers.{to_csr, to_gpr, to_fpr, to_vector, combine_reg_type, is_vector, get_reg_type}
use stf_lib.RegState.{
  RegError, RegMapInfo, RegState, lookup_reg, put_reg, emplace_reg, insert_simple_register,
  insert_mapped_register,
}
use stf_lib.RegState.Fields.{IsField}
use stf_lib.RegState.Bank.{
  insert, insert_all, simples, init_riscv, isa_registers, init_reg_bank, riscv_registers,
  general_registers, csrs, rv32_csrs, more_csrs, vector_registers, mask32, mask64,
}

-- The register is a field of its parent, which the bank has as no field of another.
pub record IsMapped (reg : ℕ) (info : RegMapInfo) (bank : List (ℕ × RegMapInfo)) : Type 0 where
  pub width : ℕ
  pub field : IsField width info
  pub parent : RegMapInfo
  pub found : lookup_reg info.mapped_reg bank ≡ some parent
  pub simple_parent : parent.mapped_reg ≡ info.mapped_reg
  pub scalar_parent : (reg == info.mapped_reg) ≡ false → is_vector info.mapped_reg ≡ false

pub record HasParents (bank : List (ℕ × RegMapInfo)) : Type 0 where
  pub at : (reg : ℕ) (info : RegMapInfo) → lookup_reg reg bank ≡ some info → IsMapped reg info bank

-- Both as tests.
abbrev has_width : ℕ → RegMapInfo → Bool
has_width w info = (info.mask == bit_mask 64 w) && leb (info.shift_bits + w) 64

has_width-IsField : (w : ℕ) (info : RegMapInfo) → has_width w info ≡ true → IsField w info
has_width-IsField w info h = record { mask_of = ground (arith, h); fits = ground (arith, h) }

unfoldable width_among : List ℕ → RegMapInfo → Bool
width_among [] info = false
width_among (w ∷ ws) info = if has_width w info then true else width_among ws info

from_head : (b c : Bool) → (if b then true else c) ≡ true → (b ≡ true) ⊎ (c ≡ true)
from_head true c h = inl refl
from_head false c h = inr h

width_among-IsField :
    (ws : List ℕ) (info : RegMapInfo) → width_among ws info ≡ true → (w : ℕ) × IsField w info
unfolding width_among
width_among-IsField [] info h = cc h
width_among-IsField (w ∷ ws) info h = elim (from_head (has_width w info) (width_among ws info) h) [
  | inl at ↦ (w, has_width-IsField w info at)
  | inr later ↦ width_among-IsField ws info later
]

unfoldable has_parent : ℕ → RegMapInfo → Option RegMapInfo → Bool
has_parent reg info none = false
has_parent reg info (some parent) =
    (parent.mapped_reg == info.mapped_reg)
    && ((reg == info.mapped_reg) || not (is_vector info.mapped_reg))

unfoldable is_mapped : List (ℕ × RegMapInfo) → ℕ → RegMapInfo → Bool
is_mapped bank reg info =
    width_among (64 ∷ 32 ∷ 5 ∷ 3 ∷ 1 ∷ []) info
    && has_parent reg info (lookup_reg info.mapped_reg bank)

unfoldable all_mapped : List (ℕ × RegMapInfo) → List (ℕ × RegMapInfo) → Bool
all_mapped bank [] = true
all_mapped bank ((reg, info) ∷ rest) = is_mapped bank reg info && all_mapped bank rest

IsMapped-parent :
    (bank : List (ℕ × RegMapInfo)) (reg w : ℕ) (info : RegMapInfo) (o : Option RegMapInfo)
    → lookup_reg info.mapped_reg bank ≡ o
    → IsField w info
    → has_parent reg info o ≡ true
    → IsMapped reg info bank
unfolding has_parent
IsMapped-parent bank reg w info none found field h = cc h
IsMapped-parent bank reg w info (some parent) found field h = record {
  width = w;
  field = field;
  parent = parent;
  found = found;
  simple_parent = ground (arith, h);
  scalar_parent = λ other. ground (arith, h, other);
}

is_mapped-IsMapped :
    (bank : List (ℕ × RegMapInfo)) (reg : ℕ) (info : RegMapInfo)
    → is_mapped bank reg info ≡ true
    → IsMapped reg info bank
unfolding is_mapped
is_mapped-IsMapped bank reg info h =
    let (w, field) = width_among-IsField (64 ∷ 32 ∷ 5 ∷ 3 ∷ 1 ∷ []) info (ground (arith, h)) in
    IsMapped-parent bank reg w info (lookup_reg info.mapped_reg bank) refl field (ground (arith, h))

lookup-IsMapped :
    (bank entries : List (ℕ × RegMapInfo)) (reg : ℕ) (info : RegMapInfo)
    → all_mapped bank entries ≡ true
    → lookup_reg reg entries ≡ some info
    → is_mapped bank reg info ≡ true
unfolding all_mapped lookup_reg
lookup-IsMapped bank [] reg info h found = cc found
lookup-IsMapped bank ((key, value) ∷ rest) reg info h found =
    ground (arith, h, found, lookup-IsMapped bank rest reg info)

all_mapped-HasParents :
    (bank : List (ℕ × RegMapInfo)) → all_mapped bank bank ≡ true → HasParents bank
all_mapped-HasParents bank h = record {
  at = λ reg info found.
      is_mapped-IsMapped bank reg info (lookup-IsMapped bank bank reg info h found);
}

abbrev tested : Result RegError (List (ℕ × RegMapInfo)) → Bool
tested (ok bank) = all_mapped bank bank
tested (err e) = false

tested-HasParents :
    (m : Result RegError (List (ℕ × RegMapInfo))) → tested m ≡ true → Yields HasParents m
tested-HasParents (ok bank) h = yields bank (all_mapped-HasParents bank h)
tested-HasParents (err e) h = cc h

rv32_tested : tested (insert_all (riscv_registers mask32 rv32_csrs) []) ≡ true
unfolding all_mapped is_mapped has_parent width_among insert insert_all simples riscv_registers
    general_registers csrs rv32_csrs more_csrs vector_registers lookup_reg put_reg emplace_reg
    insert_simple_register insert_mapped_register to_csr to_gpr to_fpr to_vector combine_reg_type
    is_vector get_reg_type bit_mask
rv32_tested = refl

rv64_tested : tested (insert_all (riscv_registers mask64 []) []) ≡ true
unfolding all_mapped is_mapped has_parent width_among insert insert_all simples riscv_registers
    general_registers csrs rv32_csrs more_csrs vector_registers lookup_reg put_reg emplace_reg
    insert_simple_register insert_mapped_register to_csr to_gpr to_fpr to_vector combine_reg_type
    is_vector get_reg_type bit_mask
rv64_tested = refl

with_bank :
    (st : RegState) (m : Result RegError (List (ℕ × RegMapInfo)))
    → Yields HasParents m
    → Yields (λ after. HasParents after.regbank) (m >>= λ bank. ok (record st { regbank = bank }))
with_bank st m (yields bank h) = yields _ h

-- initRegBank returns for RV32 and for RV64, and in the bank that it sets up every register is
-- a field, of some width that fits into 64 bits with its mask, of a register that the bank has
-- and that is a field of no other; where that is another register it is a scalar one.
pub init_reg_bank-HasParents :
    (st : RegState)
    → Yields (λ after. HasParents after.regbank) (init_reg_bank Isa.riscv InstIem.rv32 st)
      × Yields (λ after. HasParents after.regbank) (init_reg_bank Isa.riscv InstIem.rv64 st)
unfolding init_reg_bank isa_registers init_riscv
init_reg_bank-HasParents st = (
  with_bank st _ (tested-HasParents _ rv32_tested),
  with_bank st _ (tested-HasParents _ rv64_tested),
)
