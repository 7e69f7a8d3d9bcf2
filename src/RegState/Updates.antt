-- ===== src/RegState/Updates.antt =====
-- What an update keeps of the shape of the stored registers, and when it does not throw.
use stf_lib.Common.{
  ℕ, ◌≡◌, ◌%◌, ◌^◌, refl, ap, ◌∙◌, true, false, ◌==◌, ==_self, List, Option, none, some, ok,
  Ensures, gives, Ensures-bind, Ensures-any, Ensures-asserted, Ensures-if, Yields, yields,
  Yields-bind, Yields-both, Yields-if,
}
use stf_lib.Record.{InstReg}
use stf_lib.Registers.{is_vector}
use stf_lib.RegState.{
  RegMapInfo, RegState, lookup_reg, scalar_data, bank_entry, update_parent, updated_parent,
  updated_entry, reg_state_update, is_one_word, get_reg_scalar_value,
}
use stf_lib.RegState.Stored.{IsStored, HasStored, HasStored-put, stored-scalar}
use stf_lib.RegState.Fields.{IsField}
use stf_lib.RegState.Values.{bank_entry-find, get_reg_scalar_value-reg_state_update}

-- A parent that was not there, and one that was.
IsStored-parent :
    (info : RegMapInfo) (value : ℕ) (o : Option InstReg)
    → ((p : InstReg) → o ≡ some p → IsStored info.mapped_reg p)
    → Ensures (IsStored info.mapped_reg) (updated_parent info value o)
IsStored-parent info value none h = gives _ (record { own_number = refl; one_word = λ _. refl })
IsStored-parent info value (some parent) h =
    Ensures-bind _ (Ensures-any (scalar_data parent)) (λ old done.
      gives _
        (record { own_number = (h parent refl).own_number; one_word = (h parent refl).one_word }))

IsStored-entry :
    (rec : InstReg) (o : Option InstReg)
    → (is_vector rec.reg ≡ false → is_one_word rec.more_words ≡ true)
    → ((p : InstReg) → o ≡ some p → IsStored rec.reg p)
    → Ensures (IsStored rec.reg) (updated_entry rec o)
IsStored-entry rec none words h = gives _ (record { own_number = refl; one_word = words })
IsStored-entry rec (some old) words h =
    Ensures-asserted _ _
      (λ same. gives _ (record { own_number = (h old refl).own_number; one_word = words }))

HasStored-update_parent :
    (info : RegMapInfo) (rec : InstReg) (regs : List (ℕ × InstReg))
    → HasStored regs
    → Ensures HasStored (update_parent info rec regs)
unfolding update_parent
HasStored-update_parent info rec regs h = Ensures-if _ (gives _ h) (
    Ensures-bind _ (Ensures-any (scalar_data rec)) (λ value done.
      Ensures-bind _
        (IsStored-parent info value (lookup_reg info.mapped_reg regs) (h.at info.mapped_reg))
        (λ parent at. gives _ (HasStored-put info.mapped_reg parent regs at h))))

-- regStateUpdate keeps the registers stored each under its own number, the scalar ones with
-- one word, if the record has one word where its register is scalar.
pub reg_state_update-HasStored :
    (rec : InstReg) (st : RegState)
    → (is_vector rec.reg ≡ false → is_one_word rec.more_words ≡ true)
    → HasStored st.regstate
    → Ensures (λ after. HasStored after.regstate) (reg_state_update rec st)
unfolding reg_state_update
reg_state_update-HasStored rec st words h =
    Ensures-bind _ (Ensures-any (bank_entry rec.reg st.regbank)) (λ (info, bank) done.
      Ensures-bind _ (HasStored-update_parent info rec st.regstate h) (λ regs stored.
        Ensures-bind _ (IsStored-entry rec (lookup_reg rec.reg regs) words (stored.at rec.reg))
          (λ entry at. gives _ (HasStored-put rec.reg entry regs at stored))))

-- No exception.
Yields-parent :
    (info : RegMapInfo) (value : ℕ) (o : Option InstReg)
    → is_vector info.mapped_reg ≡ false
    → ((p : InstReg) → o ≡ some p → IsStored info.mapped_reg p)
    → Yields (λ _. Unit {0}) (updated_parent info value o)
Yields-parent info value none not_vector h = yields _ tt
Yields-parent info value (some parent) not_vector h =
    rw (stored-scalar info.mapped_reg parent not_vector (h parent refl)) (yields _ tt)

Yields-update_parent :
    (info : RegMapInfo) (value : ℕ) (rec : InstReg) (regs : List (ℕ × InstReg))
    → is_vector info.mapped_reg ≡ false
    → scalar_data rec ≡ ok value
    → HasStored regs
    → Yields (λ _. Unit {0}) (update_parent info rec regs)
unfolding update_parent
Yields-update_parent info value rec regs not_vector scalar h = rw scalar (
    Yields-if _ (yields _ tt) (
      Yields-bind _
        (Yields-parent info value (lookup_reg info.mapped_reg regs) not_vector
          (h.at info.mapped_reg))
        (λ parent _. yields _ tt)))

Yields-entry :
    (rec : InstReg) (o : Option InstReg)
    → ((p : InstReg) → o ≡ some p → IsStored rec.reg p)
    → Yields (λ _. Unit {0}) (updated_entry rec o)
Yields-entry rec none h = yields _ tt
Yields-entry rec (some old) h =
    let same : (old.reg == rec.reg) ≡ true =
      ap (λ (t : ℕ). t == rec.reg) (h old refl).own_number ∙ ==_self rec.reg in
    rw same (yields _ tt)

Yields-update :
    (info : RegMapInfo) (value : ℕ) (rec : InstReg) (st : RegState)
    → lookup_reg rec.reg st.regbank ≡ some info
    → is_vector info.mapped_reg ≡ false
    → scalar_data rec ≡ ok value
    → HasStored st.regstate
    → Yields (λ _. Unit {0}) (reg_state_update rec st)
unfolding reg_state_update
Yields-update info value rec st known not_vector scalar h =
    rw (bank_entry-find rec.reg st.regbank info known) (
      Yields-bind _
        (Yields-both _ (Yields-update_parent info value rec st.regstate not_vector scalar h)
          (HasStored-update_parent info rec st.regstate h))
        (λ regs stored.
          Yields-bind _ (Yields-entry rec (lookup_reg rec.reg regs) (stored.at rec.reg))
            (λ entry _. yields _ tt)))

-- If the registers are stored each under its own number, the scalar ones with one word, then
-- regStateUpdate of a scalar register that the bank has as a field of another scalar register
-- returns, and getRegScalarValue of it is then the value of the record modulo 2 to the width
-- of the field, whatever the other register held.
pub field_value-reg_state_update :
    (info : RegMapInfo) (width value : ℕ) (rec : InstReg) (st : RegState)
    → IsField width info
    → is_vector info.mapped_reg ≡ false
    → (rec.reg == info.mapped_reg) ≡ false
    → lookup_reg rec.reg st.regbank ≡ some info
    → scalar_data rec ≡ ok value
    → HasStored st.regstate
    → Yields
        (λ after. get_reg_scalar_value rec.reg after ≡ ok (value % 2 ^ width))
        (reg_state_update rec st)
field_value-reg_state_update info width value rec st field not_vector other known scalar h =
    Yields-both _ (Yields-update info value rec st known not_vector scalar h) (
      get_reg_scalar_value-reg_state_update info width value rec st field not_vector other known
        scalar)
