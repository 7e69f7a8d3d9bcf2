-- ===== src/RegState/Values.antt =====
-- What `getRegScalarValue` reads after `regStateUpdate`.
use stf_lib.Common.{
  ℕ, ◌/◌, ◌%◌, ◌^◌, ◌≡◌, refl, ap, ◌∙◌, arith, false, ◌==◌, ==_self, List, [], bit_and, Option,
  none, some, ok, Ensures, gives, Ensures-bind, Ensures-any, Ensures-equation,
}
use stf_lib.Common.Bits.{bit_and_low}
use stf_lib.Record.{InstReg}
use stf_lib.Registers.{is_vector, reg_state}
use stf_lib.RegState.{
  RegMapInfo, RegState, found_reg, entry_or_new, lookup_reg, put_reg, find_reg, scalar_data,
  bank_entry, update_parent, updated_parent, updated_entry, apply_field, reg_state_update,
  get_reg_scalar_value,
}
use stf_lib.RegState.Maps.{lookup_reg-put_reg}
use stf_lib.RegState.Fields.{IsField, apply_field_lem, field_mask}

module _ {ℓ} {A : Type ℓ} where
  find_reg-put_same : (k : ℕ) (v : A) (m : List (ℕ × A)) → find_reg k (put_reg k v m) ≡ ok v
  unfolding find_reg
  find_reg-put_same k v m =
      let same : lookup_reg k (put_reg k v m) ≡ some v =
        lookup_reg-put_reg k k v m ∙ rw (==_self k) refl in
      ap (found_reg k) same

  find_reg-put_other :
      (j k : ℕ) (v : A) (m : List (ℕ × A))
      → (k == j) ≡ false
      → find_reg j (put_reg k v m) ≡ find_reg j m
  unfolding find_reg
  find_reg-put_other j k v m h =
      let kept : lookup_reg j (put_reg k v m) ≡ lookup_reg j m =
        lookup_reg-put_reg j k v m ∙ rw h refl in
      ap (found_reg j) kept

pub bank_entry-find :
    (reg : ℕ) (bank : List (ℕ × RegMapInfo)) (info : RegMapInfo)
    → lookup_reg reg bank ≡ some info
    → bank_entry reg bank ≡ ok (info, bank)
unfolding bank_entry
bank_entry-find reg bank info h = ap (entry_or_new reg bank) h

-- A register map whose entry of the parent has `value` in the field.
record HasField (info : RegMapInfo) (width value : ℕ) (regs : List (ℕ × InstReg)) : Type 0 where
  parent : InstReg
  word : ℕ
  found : find_reg info.mapped_reg regs ≡ ok parent
  scalar : scalar_data parent ≡ ok word
  field : word / 2 ^ info.shift_bits % 2 ^ width ≡ value % 2 ^ width

-- A scalar register that gets another word.
new_word :
    (r : InstReg) (w v : ℕ)
    → scalar_data r ≡ ok v
    → scalar_data (record r { first_word = w }) ≡ ok w
unfolding scalar_data
new_word r w v h = ground (arith, h)

new_scalar :
    (reg w : ℕ)
    → is_vector reg ≡ false
    → scalar_data (record { reg = reg; operand_type = reg_state; first_word = w; more_words = [] })
      ≡ ok w
unfolding scalar_data
new_scalar reg w h = rw h refl

module _ (info : RegMapInfo) (width : ℕ) (h : IsField width info)
    (not_vector : is_vector info.mapped_reg ≡ false) where
  HasField-put :
      (value old : ℕ) (parent : InstReg) (regs : List (ℕ × InstReg))
      → scalar_data parent ≡ ok (apply_field info old value)
      → HasField info width value (put_reg info.mapped_reg parent regs)
  HasField-put value old parent regs scalar = record {
    parent = parent;
    word = apply_field info old value;
    found = find_reg-put_same info.mapped_reg parent regs;
    scalar = scalar;
    field = apply_field_lem info width h old value;
  }

  HasField-updated :
      (value : ℕ) (o : Option InstReg) (regs : List (ℕ × InstReg))
      → Ensures
          (λ parent. HasField info width value (put_reg info.mapped_reg parent regs))
          (updated_parent info value o)
  HasField-updated value none regs = gives _ (
      HasField-put value 0 _ regs
        (new_scalar info.mapped_reg (apply_field info 0 value) not_vector))
  HasField-updated value (some parent) regs =
      Ensures-bind _ (Ensures-equation (Ensures-any (scalar_data parent))) (λ old (done, scalar).
        gives _ (HasField-put value old _ regs (new_word parent _ old scalar)))

  HasField-parent :
      (rec : InstReg) (value : ℕ) (regs : List (ℕ × InstReg))
      → (rec.reg == info.mapped_reg) ≡ false
      → scalar_data rec ≡ ok value
      → Ensures (HasField info width value) (update_parent info rec regs)
  unfolding update_parent
  HasField-parent rec value regs other scalar = rw other (
      rw scalar (
        Ensures-bind _ (HasField-updated value (lookup_reg info.mapped_reg regs) regs)
          (λ parent field. gives _ field)))

-- The value of a field in a map that has it.
field_value :
    (info : RegMapInfo) (width value reg : ℕ) (regs : List (ℕ × InstReg))
    (bank : List (ℕ × RegMapInfo))
    → IsField width info
    → lookup_reg reg bank ≡ some info
    → HasField info width value regs
    → get_reg_scalar_value reg (record { regbank = bank; regstate = regs }) ≡ ok (value % 2 ^ width)
unfolding get_reg_scalar_value find_reg
field_value info width value reg regs bank h known at =
    rw (ap (found_reg reg) {x = lookup_reg reg bank} {y = some info} known) (
      rw at.found (
        rw at.scalar (
          ap ok (
            ap (bit_and (at.word / 2 ^ info.shift_bits)) (field_mask info width h)
            ∙ (bit_and_low width (at.word / 2 ^ info.shift_bits) ∙ at.field)))))

HasField-put_other :
    (info : RegMapInfo) (width value reg : ℕ) (entry : InstReg) (regs : List (ℕ × InstReg))
    → (reg == info.mapped_reg) ≡ false
    → HasField info width value regs
    → HasField info width value (put_reg reg entry regs)
HasField-put_other info width value reg entry regs other at = record {
  parent = at.parent;
  word = at.word;
  found = find_reg-put_other info.mapped_reg reg entry regs other ∙ at.found;
  scalar = at.scalar;
  field = at.field;
}

-- After an update of a register that is a field of another one, the field has the value of the
-- record.
pub get_reg_scalar_value-reg_state_update :
    (info : RegMapInfo) (width value : ℕ) (rec : InstReg) (st : RegState)
    → IsField width info
    → is_vector info.mapped_reg ≡ false
    → (rec.reg == info.mapped_reg) ≡ false
    → lookup_reg rec.reg st.regbank ≡ some info
    → scalar_data rec ≡ ok value
    → Ensures
        (λ after. get_reg_scalar_value rec.reg after ≡ ok (value % 2 ^ width))
        (reg_state_update rec st)
unfolding reg_state_update
get_reg_scalar_value-reg_state_update info width value rec st h not_vector other known scalar =
    rw (bank_entry-find rec.reg st.regbank info known) (
      Ensures-bind _ (HasField-parent info width h not_vector rec value st.regstate other scalar)
        (λ regs at.
          Ensures-bind _ (Ensures-any (updated_entry rec (lookup_reg rec.reg regs))) (λ entry done.
            gives _ (
              field_value info width value rec.reg (put_reg rec.reg entry regs) st.regbank h known
                (HasField-put_other info width value rec.reg entry regs other at)))))
