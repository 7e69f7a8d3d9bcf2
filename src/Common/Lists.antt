-- ===== src/Common/Lists.antt =====
-- List functions with native indices.
use Prim.Native.Nat.{ℕ, zero, suc, ◌+◌, ◌≤◌, ◌<◌}
use mathlib.Core.Path.{◌≡◌, refl, ap}
use mathlib.Core.List.{List, [], ◌∷◌, ◌++◌}
use mathlib.Core.Option.{Option, none, some}
use native.Mathlib.Omega.{arith}

module _ {ℓ} {A : Type ℓ} where
  abbrev pub length : List A → ℕ
  length [] = 0
  length (_ ∷ xs) = suc (length xs)

  abbrev pub get_elem? : List A → ℕ → Option A
  get_elem? [] _ = none
  get_elem? (x ∷ _) zero = some x
  get_elem? (_ ∷ xs) (suc i) = get_elem? xs i

  pub length-append : (xs ys : List A) → length (xs ++ ys) ≡ length xs + length ys
  length-append [] ys = omega arith
  length-append (x ∷ xs) ys = omega (arith, length-append xs ys)

  abbrev pub All {κ} : (A → Type κ) → List A → Type κ
  All P [] = Unit {κ}
  All P (x ∷ xs) = P x × All P xs

  abbrev pub drop : ℕ → List A → List A
  drop zero xs = xs
  drop (suc n) [] = []
  drop (suc n) (_ ∷ xs) = drop n xs

  -- What stands at the front of a suffix.
  pub get_elem?-drop :
      (n : ℕ) (xs : List A) {x : A} {rest : List A}
      → drop n xs ≡ x ∷ rest
      → (get_elem? xs n ≡ some x) × (drop (suc n) xs ≡ rest) × (n < length xs)
  get_elem?-drop zero [] h = absurd cc
  get_elem?-drop zero (y ∷ xs) h = (cc, cc, omega arith)
  get_elem?-drop (suc n) [] h = absurd cc
  get_elem?-drop (suc n) (y ∷ xs) h =
      let (found, rest, below) = get_elem?-drop n xs h in (found, rest, omega (arith, below))

  pub get_elem?-length : (xs : List A) (n : ℕ) → n < length xs → (x : A) × (get_elem? xs n ≡ some x)
  get_elem?-length [] n h = absurd (omega (arith, h))
  get_elem?-length (x ∷ xs) zero h = (x, refl)
  get_elem?-length (x ∷ xs) (suc n) h = get_elem?-length xs n (omega (arith, h))

  pub drop-length : (n : ℕ) (xs : List A) → n ≤ length xs → drop n xs ≡ [] → length xs ≡ n
  drop-length zero [] h none_left = refl
  drop-length zero (x ∷ xs) h none_left = absurd cc
  drop-length (suc n) [] h none_left = absurd (omega (arith, h))
  drop-length (suc n) (x ∷ xs) h none_left = ap suc (drop-length n xs (omega (arith, h)) none_left)

  pub All-map {κ ι} :
      {P : A → Type κ} {Q : A → Type ι}
      → ((x : A) → P x → Q x)
      → (xs : List A) → All P xs
      → All Q xs
  All-map f [] h = tt
  All-map f (x ∷ xs) (p, ps) = (f x p, All-map f xs ps)
