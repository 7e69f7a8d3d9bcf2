-- ===== src/RegState.antt =====
-- The values of the registers: STFRegState of stf-inc/stf_reg_state.hpp, and writeRegState of
-- lib/stf_reg_state.cpp. A flat_map is a list sorted by its keys. RegState/Bank is initRegBank.
pub mod Maps
pub mod Fields
pub mod Stored
pub mod Values
pub mod Bank
pub mod Parents
pub mod Updates
use stf_lib.Common.{
  ℕ, ◌+◌, ◌-◌, ◌%◌, ◌^◌, Bool, true, false, not, ltb, ◌==◌, if◌then◌else◌, bit_and, bit_or,
}
use stf_lib.Common.{List, [], ◌∷◌, map, Option, none, some, Result, ok, err, ◌>>=◌, ◌>>◌, assert}
use stf_lib.ByteUtils.{bit_mask, shl, shr}
use stf_lib.Registers.{is_vector, is_nonstandard_csr, reg_state}
use stf_lib.Record.{Record, Body, InstReg}

-- RegMapInfo; its register is the key of the bank.
pub record RegMapInfo : Type 0 where
  pub mapped_reg : ℕ
  pub mask : ℕ
  pub shift_bits : ℕ

-- `calcRegMask`
abbrev pub calc_reg_mask : ℕ → ℕ
calc_reg_mask num_bits = bit_mask 64 num_bits

unfoldable pub apply_field : RegMapInfo → ℕ → ℕ → ℕ
apply_field info parent_reg_val field_val =
    bit_or (bit_and parent_reg_val (2 ^ 64 - 1 - shl 64 info.mask info.shift_bits))
      (shl 64 (bit_and field_val info.mask) info.shift_bits)

pub data RegError : Type 0 where
  unknown_register : ℕ → RegError
  vector_register invalid_size other_register scalar_register : RegError
  invalid_iem unsupported_isa invalid_isa : RegError

-- A map by register numbers.
unfoldable pub lookup_reg {ℓ} : {A : Type ℓ} → ℕ → List (ℕ × A) → Option A
lookup_reg reg [] = none
lookup_reg reg ((key, value) ∷ entries) =
    let later = lookup_reg reg entries in if key == reg then some value else later

unfoldable pub put_reg {ℓ} : {A : Type ℓ} → ℕ → A → List (ℕ × A) → List (ℕ × A)
put_reg reg value [] = (reg, value) ∷ []
put_reg reg value ((key, old) ∷ entries) =
    let later = put_reg reg value entries in
    if ltb reg key
    then (reg, value) ∷ (key, old) ∷ entries
    else if reg == key
    then (reg, value) ∷ entries
    else (key, old) ∷ later

pub record RegState : Type 0 where
  pub regbank : List (ℕ × RegMapInfo)
  pub regstate : List (ℕ × InstReg)

-- `find_`
abbrev pub found_reg {ℓ} : {A : Type ℓ} → ℕ → Option A → Result RegError A
found_reg reg none = err (unknown_register reg)
found_reg reg (some value) = ok value

unfoldable pub find_reg {ℓ} : {A : Type ℓ} → ℕ → List (ℕ × A) → Result RegError A
find_reg reg entries = found_reg reg (lookup_reg reg entries)

-- `emplace` keeps an entry that is there.
unfoldable pub emplace_reg : ℕ → RegMapInfo → List (ℕ × RegMapInfo) → List (ℕ × RegMapInfo)
emplace_reg reg info bank = elim (lookup_reg reg bank) [
  | none ↦ put_reg reg info bank
  | some old ↦ bank
]

abbrev pub simple_register : ℕ → ℕ → RegMapInfo
simple_register reg mask = record { mapped_reg = reg; mask = mask; shift_bits = 0 }

unfoldable pub insert_simple_register : ℕ → ℕ → List (ℕ × RegMapInfo) → List (ℕ × RegMapInfo)
insert_simple_register reg mask bank = emplace_reg reg (simple_register reg mask) bank

unfoldable pub insert_mapped_register :
    ℕ → RegMapInfo → List (ℕ × RegMapInfo) → Result RegError (List (ℕ × RegMapInfo))
insert_mapped_register reg info bank = do
  assert (not (is_vector reg)) vector_register
  ok (emplace_reg reg info bank)

-- `InstRegRecord::getScalarData`
abbrev pub is_one_word : List ℕ → Bool
is_one_word [] = true
is_one_word (_ ∷ _) = false

unfoldable pub scalar_data : InstReg → Result RegError ℕ
scalar_data r = do
  assert (not (is_vector r.reg)) vector_register
  assert (is_one_word r.more_words) invalid_size
  ok r.first_word

-- The entry of the bank, which a nonstandard CSR gets when it is first updated.
abbrev pub entry_or_new :
    ℕ
    → List (ℕ × RegMapInfo)
    → Option RegMapInfo
    → Result RegError (RegMapInfo × List (ℕ × RegMapInfo))
entry_or_new reg bank (some info) = ok (info, bank)
entry_or_new reg bank none =
    let info = simple_register reg (2 ^ 64 - 1) in
    if is_nonstandard_csr reg then ok (info, put_reg reg info bank) else err (unknown_register reg)

unfoldable pub bank_entry :
    ℕ → List (ℕ × RegMapInfo) → Result RegError (RegMapInfo × List (ℕ × RegMapInfo))
bank_entry reg bank = entry_or_new reg bank (lookup_reg reg bank)

-- The register that `reg` is a field of, with the new value of the field.
abbrev pub updated_parent : RegMapInfo → ℕ → Option InstReg → Result RegError InstReg
updated_parent info value none = ok (record {
  reg = info.mapped_reg;
  operand_type = reg_state;
  first_word = apply_field info 0 value;
  more_words = [];
})
updated_parent info value (some parent) = do
  old ← scalar_data parent
  ok (record parent { first_word = apply_field info old value })

unfoldable pub update_parent :
    RegMapInfo → InstReg → List (ℕ × InstReg) → Result RegError (List (ℕ × InstReg))
update_parent info rec regs = if rec.reg == info.mapped_reg then ok regs else (do
  value ← scalar_data rec
  parent ← updated_parent info value (lookup_reg info.mapped_reg regs)
  ok (put_reg info.mapped_reg parent regs))

-- The entry of the register itself: a copy as REG_STATE, or `copyFrom`.
abbrev pub updated_entry : InstReg → Option InstReg → Result RegError InstReg
updated_entry rec none = ok (record rec { operand_type = reg_state })
updated_entry rec (some old) = do
  assert (old.reg == rec.reg) other_register
  ok (record old { first_word = rec.first_word; more_words = rec.more_words })

-- `regStateUpdate`
unfoldable pub reg_state_update : InstReg → RegState → Result RegError RegState
reg_state_update rec st = do
  (info, bank) ← bank_entry rec.reg st.regbank
  regs ← update_parent info rec st.regstate
  entry ← updated_entry rec (lookup_reg rec.reg regs)
  ok (record { regbank = bank; regstate = put_reg rec.reg entry regs })

unfoldable pub get_reg_scalar_value : ℕ → RegState → Result RegError ℕ
get_reg_scalar_value regno st = do
  info ← find_reg regno st.regbank
  rec ← find_reg info.mapped_reg st.regstate
  value ← scalar_data rec
  ok (bit_and (shr value info.shift_bits) info.mask)

-- `InstRegRecord::getVectorData`
unfoldable pub vector_data : InstReg → Result RegError (List ℕ)
vector_data r = do assert (is_vector r.reg) scalar_register; ok (r.first_word ∷ r.more_words)

unfoldable pub get_reg_vector_value : ℕ → RegState → Result RegError (List ℕ)
get_reg_vector_value regno st = do
  info ← find_reg regno st.regbank
  rec ← find_reg info.mapped_reg st.regstate
  vector_data rec

-- `writeRegState`: the records that it hands to the writer.
unfoldable pub reg_state_records : RegState → List Record
reg_state_records st = map (λ (reg, rec). Record.body (Body.inst_reg rec)) st.regstate

-- `stateClear` and `clear`
abbrev pub state_clear : RegState → RegState
state_clear st = record st { regstate = [] }

abbrev pub clear_registers : RegState → RegState
clear_registers st = record { regbank = []; regstate = [] }
