-- ===== src/RegState/Stored.antt =====
-- The shape of the stored registers: each under its own number, a scalar register with one word.
use stf_lib.Common.{
  ℕ, ◌≡◌, refl, sym, ap, ◌∙◌, Bool, true, false, ◌==◌, ==_iff, if◌then◌else◌, List, Option, some,
  ok,
}
use stf_lib.Record.{InstReg}
use mathlib.Core.Path.{subst}
use stf_lib.Registers.{is_vector}
use stf_lib.RegState.{lookup_reg, put_reg, scalar_data, is_one_word}
use stf_lib.RegState.Maps.{lookup_reg-put_reg}

pub record IsStored (key : ℕ) (r : InstReg) : Type 0 where
  pub own_number : r.reg ≡ key
  pub one_word : is_vector key ≡ false → is_one_word r.more_words ≡ true

pub record HasStored (regs : List (ℕ × InstReg)) : Type 0 where
  pub at : (key : ℕ) (r : InstReg) → lookup_reg key regs ≡ some r → IsStored key r

some_inj : (r s : InstReg) → some r ≡ some s → r ≡ s
some_inj r s h = cc h

IsStored-found :
    (j k : ℕ) (v r : InstReg) (b : Bool) (old : Option InstReg)
    → (k == j) ≡ b
    → IsStored k v
    → (old ≡ some r → IsStored j r)
    → (if b then some v else old) ≡ some r
    → IsStored j r
IsStored-found j k v r true old same new before h =
    subst (λ key. IsStored key r) ((==_iff k j).0 same) (subst (IsStored k) (some_inj v r h) new)
IsStored-found j k v r false old same new before h = before h

pub HasStored-put :
    (k : ℕ) (v : InstReg) (regs : List (ℕ × InstReg))
    → IsStored k v
    → HasStored regs
    → HasStored (put_reg k v regs)
HasStored-put k v regs new before = record {
  at = λ j r h.
      IsStored-found j k v r (k == j) (lookup_reg j regs) refl new (before.at j r)
        (sym (lookup_reg-put_reg j k v regs) ∙ h);
}

pub stored-scalar :
    (key : ℕ) (r : InstReg)
    → is_vector key ≡ false
    → IsStored key r
    → scalar_data r ≡ ok r.first_word
unfolding scalar_data
stored-scalar key r scalar at =
    let number : is_vector r.reg ≡ false = ap is_vector at.own_number ∙ scalar in
    rw number (rw (at.one_word scalar) refl)
