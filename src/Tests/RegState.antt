-- ===== src/Tests/RegState.antt =====
-- The rounding mode of the floating-point CSR.
use stf_lib.Common.{ℕ, ◌≡◌, refl, arith, List, [], ◌∷◌, ok, Ensures, Yields}
use stf_lib.Record.{InstReg, Isa}
use stf_lib.Branch.Decoder.{InstIem}
use stf_lib.RegState.Bank.{init_reg_bank}
use stf_lib.RegState.Parents.{HasParents, init_reg_bank-HasParents}
use stf_lib.Registers.{reg_state, reg_dest, to_csr, combine_reg_type, is_vector}
use stf_lib.RegState.{
  RegMapInfo, RegState, calc_reg_mask, simple_register, lookup_reg, put_reg, scalar_data,
  reg_state_update, get_reg_scalar_value,
}
use stf_lib.RegState.Stored.{HasStored, HasStored-put}
use stf_lib.RegState.Updates.{field_value-reg_state_update, reg_state_update-HasStored}

abbrev frm_info : RegMapInfo
frm_info = record { mapped_reg = to_csr 3; mask = calc_reg_mask 3; shift_bits = 5 }

abbrev bank : List (ℕ × RegMapInfo)
bank = (to_csr 2, frm_info) ∷ (to_csr 3, simple_register (to_csr 3) 0xffffffff) ∷ []

abbrev stored_fcsr : InstReg
stored_fcsr = record {
  reg = to_csr 3;
  operand_type = reg_state;
  first_word = 0x1f;
  more_words = [];
}

abbrev fcsr_state : RegState
fcsr_state = record { regbank = bank; regstate = put_reg (to_csr 3) stored_fcsr [] }

abbrev frm_record : InstReg
frm_record = record { reg = to_csr 2; operand_type = reg_dest; first_word = 4; more_words = [] }

HasStored-empty : HasStored []
unfolding lookup_reg
HasStored-empty = record { at = λ key r h. cc h }

HasStored-fcsr : HasStored fcsr_state.regstate
HasStored-fcsr =
    HasStored-put (to_csr 3) stored_fcsr [] (record { own_number = refl; one_word = λ _. refl })
      HasStored-empty

field_value-reg_state_update_example :
    Yields
      (λ after. get_reg_scalar_value (to_csr 2) after ≡ ok 4)
      (reg_state_update frm_record fcsr_state)
unfolding is_vector scalar_data lookup_reg put_reg to_csr combine_reg_type
field_value-reg_state_update_example =
    field_value-reg_state_update frm_info 3 4 frm_record fcsr_state
      (record { mask_of = refl; fits = omega arith }) refl refl refl refl HasStored-fcsr

reg_state_update-HasStored_example :
    Ensures (λ after. HasStored after.regstate) (reg_state_update frm_record fcsr_state)
reg_state_update-HasStored_example =
    reg_state_update-HasStored frm_record fcsr_state (λ _. refl) HasStored-fcsr

init_reg_bank-HasParents_example :
    Yields (λ after. HasParents after.regbank) (init_reg_bank Isa.riscv InstIem.rv32 fcsr_state)
    × Yields (λ after. HasParents after.regbank) (init_reg_bank Isa.riscv InstIem.rv64 fcsr_state)
init_reg_bank-HasParents_example = init_reg_bank-HasParents fcsr_state
