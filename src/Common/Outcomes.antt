-- ===== src/Common/Outcomes.antt =====
-- What a computation that may throw leaves where it does not throw.
use mathlib.Core.Path.{◌≡◌, refl, subst}
use mathlib.Core.Bool.{Bool, true, false}
use stf_lib.Common.Errors.{Result, ok, err, ◌>>=◌, assert}
use stf_lib.Common.Tests.{if◌then◌else◌}

pub data Ensures {ε ℓ κ} {E : Type ε} {A : Type ℓ} (P : A → Type κ)
    : Result E A → Type (ε ⊔ ℓ ⊔ κ) where
  throws : (e : E) → Ensures P (err e)
  gives : (a : A) → P a → Ensures P (ok a)

pub Ensures-bind {ε ℓ κ μ ν} :
    {E : Type ε} {A : Type ℓ} {B : Type κ} {P : A → Type μ} (Q : B → Type ν) {m : Result E A}
    {f : A → Result E B}
    → Ensures P m
    → ((a : A) → P a → Ensures Q (f a))
    → Ensures Q (m >>= f)
Ensures-bind Q (throws e) rest = throws e
Ensures-bind Q (gives a p) rest = rest a p

pub Ensures-if {ε ℓ κ} :
    {E : Type ε} {A : Type ℓ} {P : A → Type κ} (b : Bool) {m n : Result E A}
    → Ensures P m
    → Ensures P n
    → Ensures P (if b then m else n)
Ensures-if true h k = h
Ensures-if false h k = k

pub Ensures-assert {ε ℓ κ} :
    {E : Type ε} {A : Type ℓ} {P : A → Type κ} (b : Bool) (e : E) {m : Result E A}
    → Ensures P m
    → Ensures P (assert b e >>= λ done. m)
Ensures-assert true e h = h
Ensures-assert false e h = throws e

pub Ensures-any {ε ℓ} : {E : Type ε} {A : Type ℓ} (m : Result E A) → Ensures (λ (a : A). Unit {0}) m
Ensures-any (err e) = throws e
Ensures-any (ok a) = gives a tt

AtValue {ε ℓ κ} : {E : Type ε} {A : Type ℓ} (P : A → Type κ) → Result E A → Type κ
AtValue P (err e) = Unit
AtValue P (ok a) = P a

holds_at {ε ℓ κ} :
    {E : Type ε} {A : Type ℓ} (P : A → Type κ) {m : Result E A} → Ensures P m → AtValue P m
unfolding AtValue
holds_at P (throws e) = tt
holds_at P (gives a p) = p

pub Ensures-ok {ε ℓ κ} :
    {E : Type ε} {A : Type ℓ} (P : A → Type κ) {m : Result E A} {a : A}
    → Ensures P m
    → m ≡ ok a
    → P a
unfolding AtValue
Ensures-ok P h same = subst (AtValue P) same (holds_at P h)

-- An assertion, with what it established.
pub Ensures-asserted {ε ℓ κ} :
    {E : Type ε} {A : Type ℓ} {P : A → Type κ} (b : Bool) (e : E) {m : Result E A}
    → (b ≡ true → Ensures P m)
    → Ensures P (assert b e >>= λ done. m)
Ensures-asserted true e h = h refl
Ensures-asserted false e h = throws e

-- What is ensured, with the equation that says so, and two things ensured together.
pub Ensures-equation {ε ℓ κ} :
    {E : Type ε} {A : Type ℓ} {P : A → Type κ} {m : Result E A}
    → Ensures P m
    → Ensures (λ a. P a × (m ≡ ok a)) m
Ensures-equation (throws e) = throws e
Ensures-equation (gives a p) = gives a (p, refl)

pub Ensures-both {ε ℓ κ μ} :
    {E : Type ε} {A : Type ℓ} {P : A → Type κ} (Q : A → Type μ) {m : Result E A}
    → Ensures P m
    → Ensures Q m
    → Ensures (λ a. P a × Q a) m
Ensures-both Q (throws e) k = throws e
Ensures-both Q (gives a p) k = gives a (p, Ensures-ok Q k refl)

pub Ensures-map {ε ℓ κ μ} :
    {E : Type ε} {A : Type ℓ} {P : A → Type κ} (Q : A → Type μ) {m : Result E A}
    → ((a : A) → P a → Q a)
    → Ensures P m
    → Ensures Q m
Ensures-map Q f (throws e) = throws e
Ensures-map Q f (gives a p) = gives a (f a p)

-- A computation that returns a value with P.
pub data Yields {ε ℓ κ} {E : Type ε} {A : Type ℓ} (P : A → Type κ)
    : Result E A → Type (ε ⊔ ℓ ⊔ κ) where
  yields : (a : A) → P a → Yields P (ok a)

pub Yields-bind {ε ℓ κ μ ν} :
    {E : Type ε} {A : Type ℓ} {B : Type κ} {P : A → Type μ} (Q : B → Type ν) {m : Result E A}
    {f : A → Result E B}
    → Yields P m
    → ((a : A) → P a → Yields Q (f a))
    → Yields Q (m >>= f)
Yields-bind Q (yields a p) rest = rest a p

pub Yields-both {ε ℓ κ μ} :
    {E : Type ε} {A : Type ℓ} {P : A → Type κ} (Q : A → Type μ) {m : Result E A}
    → Yields P m
    → Ensures Q m
    → Yields Q m
Yields-both Q (yields a p) h = yields a (Ensures-ok Q h refl)

pub Yields-if {ε ℓ κ} :
    {E : Type ε} {A : Type ℓ} {P : A → Type κ} (b : Bool) {m n : Result E A}
    → Yields P m
    → Yields P n
    → Yields P (if b then m else n)
Yields-if true h k = h
Yields-if false h k = k
