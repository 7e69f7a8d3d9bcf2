-- ===== src/RegState/Maps.antt =====
-- The maps of STFRegState.
use stf_lib.Common.{ℕ, ◌≡◌, arith, ◌==◌, if◌then◌else◌, List, [], ◌∷◌, some}
use stf_lib.RegState.{lookup_reg, put_reg}

module _ {ℓ} {A : Type ℓ} where
  pub lookup_reg-put_reg :
      (j k : ℕ) (v : A) (m : List (ℕ × A))
      → lookup_reg j (put_reg k v m) ≡ (if k == j then some v else lookup_reg j m)
  unfolding lookup_reg put_reg
  lookup_reg-put_reg j k v [] = ground arith
  lookup_reg-put_reg j k v ((i, w) ∷ m) = ground (arith, lookup_reg-put_reg j k v m)
