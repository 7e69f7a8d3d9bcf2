-- ===== src/Common/Errors.antt =====
-- Code that throws: a value, or the error of the assertion that failed.
use mathlib.Core.Bool.{Bool, true, false}

pub data Result {ε ℓ} (E : Type ε) (A : Type ℓ) : Type (ε ⊔ ℓ) where
  err : E → Result E A
  ok : A → Result E A

-- The statements after one that may throw; `>>` where its value is not used.
infixl 5 ◌>>=◌ ◌>>◌
abbrev pub ◌>>=◌ {ε ℓ κ} :
    {E : Type ε} {A : Type ℓ} {B : Type κ} → Result E A → (A → Result E B) → Result E B
err failure >>= rest = err failure
ok result >>= rest = rest result

abbrev pub ◌>>◌ {ε ℓ} : {E : Type ε} {B : Type ℓ} → Result E (Unit {0}) → Result E B → Result E B
first >> rest = first >>= λ done. rest

-- `stf_assert`
abbrev pub assert {ε} : {E : Type ε} → Bool → E → Result E (Unit {0})
assert false failure = err failure
assert true failure = ok tt
