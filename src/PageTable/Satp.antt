-- ===== src/PageTable/Satp.antt =====
-- stf-inc/stf_satp_decoder.hpp: the table that a value of the SATP register selects. No translation
-- is `none` in place of a VAMode.
use stf_lib.Common.{ℕ, ◌+◌, ◌*◌, ◌%◌, ◌^◌, ◌<◌, ◌≡◌, ap, ◌∙◌, arith, ◌==◌, if◌then◌else◌}
use stf_lib.Common.{bit_and, Option, none, some, Result, ok, err, ◌>>=◌}
use stf_lib.Common.Bits.{bit_and_low}
use stf_lib.ByteUtils.{bit_mask, shl, shr}
use stf_lib.ByteUtils.Fields.{bit_mask_lem}
use stf_lib.PageTable.{VaMode, page_offset_size}

-- SatpProperties of RV32 and of RV64.
pub record SatpProperties : Type 0 where
  pub ppn_bits : ℕ
  pub mode_shift : ℕ
  pub mode_bits : ℕ

abbrev pub rv32_properties : SatpProperties
rv32_properties = record { ppn_bits = 22; mode_shift = 31; mode_bits = 1 }

abbrev pub rv64_properties : SatpProperties
rv64_properties = record { ppn_bits = 44; mode_shift = 60; mode_bits = 4 }

pub record Satp : Type 0 where
  pub base_addr : ℕ
  pub va_mode : Option VaMode

-- The mode of an invalid SATP.
pub data SatpError : Type 0 where
  invalid_mode : ℕ → SatpError

unfoldable pub get_mode_bits : SatpProperties → ℕ → ℕ
get_mode_bits p satp_value = bit_and (shr satp_value p.mode_shift) (bit_mask 64 p.mode_bits) % 2 ^ 8

unfoldable pub get_base_address : SatpProperties → ℕ → ℕ
get_base_address p satp_value =
    shl 64 (bit_and satp_value (bit_mask 64 p.ppn_bits)) page_offset_size

-- `getVAMode`
unfoldable pub get_va_mode32 : ℕ → Result SatpError (Option VaMode)
get_va_mode32 satp_value =
    if get_mode_bits rv32_properties satp_value == 0 then ok none else ok (some VaMode.sv32)

unfoldable pub get_va_mode64 : ℕ → Result SatpError (Option VaMode)
get_va_mode64 satp_value =
    let mode = get_mode_bits rv64_properties satp_value in
    if mode == 0
    then ok none
    else if mode == 8
    then ok (some VaMode.sv39)
    else if mode == 9
    then ok (some VaMode.sv48)
    else if mode == 10
    then ok (some VaMode.sv57)
    else err (invalid_mode mode)

-- `decode`
unfoldable pub decode_satp32 : ℕ → Result SatpError Satp
decode_satp32 satp_value = get_va_mode32 satp_value >>= λ mode.
    ok (record { base_addr = get_base_address rv32_properties satp_value; va_mode = mode })

unfoldable pub decode_satp64 : ℕ → Result SatpError Satp
decode_satp64 satp_value = get_va_mode64 satp_value >>= λ mode.
    ok (record { base_addr = get_base_address rv64_properties satp_value; va_mode = mode })

-- The fields of the register in the ISA: MODE, ASID and PPN.
abbrev pub satp64 : ℕ → ℕ → ℕ → ℕ
satp64 mode asid ppn = mode * 2 ^ 60 + asid * 2 ^ 44 + ppn

get_mode_bits-satp64 :
    (mode asid ppn : ℕ)
    → mode < 16
    → asid < 2 ^ 16
    → ppn < 2 ^ 44
    → get_mode_bits rv64_properties (satp64 mode asid ppn) ≡ mode
unfolding get_mode_bits
get_mode_bits-satp64 mode asid ppn hm ha hp =
    let top : shr (satp64 mode asid ppn) 60 ≡ mode = omega arith in
    ap (λ (t : ℕ). bit_and t (bit_mask 64 4) % 2 ^ 8) top
    ∙ ap (λ (t : ℕ). bit_and mode t % 2 ^ 8) (bit_mask_lem 64 4 (omega arith) (omega arith))
    ∙ ap (λ (t : ℕ). t % 2 ^ 8) (bit_and_low 4 mode)
    ∙ omega arith

get_base_address-satp64 :
    (mode asid ppn : ℕ)
    → asid < 2 ^ 16
    → ppn < 2 ^ 44
    → get_base_address rv64_properties (satp64 mode asid ppn) ≡ ppn * 2 ^ 12
unfolding get_base_address
get_base_address-satp64 mode asid ppn ha hp =
    ap (λ (t : ℕ). shl 64 (bit_and (satp64 mode asid ppn) t) 12)
      (bit_mask_lem 64 44 (omega arith) (omega arith))
    ∙ ap (λ (t : ℕ). shl 64 t 12) (bit_and_low 44 (satp64 mode asid ppn))
    ∙ omega arith

-- A SATP of RV64 that has the given mode, address space and page number in the places of the
-- ISA decodes to the address of that page, and to the translation of the mode; a mode other
-- than 0, 8, 9 and 10 is an error.
pub decode_satp64-satp64 :
    (mode asid ppn : ℕ)
    → mode < 16
    → asid < 2 ^ 16
    → ppn < 2 ^ 44
    → decode_satp64 (satp64 mode asid ppn) ≡ (
        if mode == 0
        then ok (record { base_addr = ppn * 2 ^ 12; va_mode = none })
        else if mode == 8
        then ok (record { base_addr = ppn * 2 ^ 12; va_mode = some VaMode.sv39 })
        else if mode == 9
        then ok (record { base_addr = ppn * 2 ^ 12; va_mode = some VaMode.sv48 })
        else if mode == 10
        then ok (record { base_addr = ppn * 2 ^ 12; va_mode = some VaMode.sv57 })
        else err (invalid_mode mode))
unfolding decode_satp64 get_va_mode64
decode_satp64-satp64 mode asid ppn hm ha hp =
    rw (get_mode_bits-satp64 mode asid ppn hm ha hp, get_base_address-satp64 mode asid ppn ha hp)
      (ground arith)
