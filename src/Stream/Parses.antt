-- ===== src/Stream/Parses.antt =====
-- A read that takes exactly these bytes, whatever follows them.
use stf_lib.Common.{
  ℕ, zero, suc, ◌/◌, ◌^◌, ◌<◌, ◌≡◌, refl, ap, arith, List, [], ◌∷◌, ◌++◌, length, All, Result, ok,
  Bool, true, false, some,
}
use stf_lib.Stream.{Fstream, StreamError}
use stf_lib.Stream.Reads.{
  Read, pure, ◌>>=◌, ◌>>◌, stream_state, change, check, known, read_byte, read_uint, read_elements,
  read_container,
}
use stf_lib.Stream.Writes.{write_uint, write_elements, write_container}
use mathlib.Core.List.{append_assoc}
use mathlib.Core.Path.{subst}
use native.Mathlib.Nat.{pow-suc}

-- A read from the state `before` that takes `bytes` gives `value` and leaves the state `after`.
pub record Parses {ℓ} {A : Type ℓ} (read : Read A) (before : Fstream) (bytes : List ℕ) (value : A)
    (after : Fstream) : Type ℓ where
  pub parses : (rest : List ℕ) → read before (bytes ++ rest) ≡ ok (value, after, rest)

module _ {ℓ} {A : Type ℓ} where
  pub Parses-pure : (a : A) (s : Fstream) → Parses (pure a) s [] a s
  unfolding pure
  Parses-pure a s = record { parses = λ rest. refl }

  pub Parses-equal : (a b : A) (s : Fstream) → a ≡ b → Parses (pure a) s [] b s
  Parses-equal a b s e = subst (λ (x : A). Parses (pure a) s [] x s) e (Parses-pure a s)

  pub Parses-bind {κ} :
      {B : Type κ} {read : Read A} (k : A → Read B) {s s1 s2 : Fstream} {bs cs : List ℕ} {a : A}
      {b : B}
      → Parses read s bs a s1
      → Parses (k a) s1 cs b s2
      → Parses (read >>= k) s (bs ++ cs) b s2
  unfolding ◌>>=◌
  Parses-bind k {bs = bs} {cs} first second = record {
    parses =
        λ rest. rw (append_assoc bs cs rest) (rw (first.parses (cs ++ rest)) (second.parses rest));
  }

  -- The last read of a sequence.
  pub Parses-last {κ} :
      {B : Type κ} {read : Read A} (f : A → B) {s s' : Fstream} {bs : List ℕ} {a : A}
      → Parses read s bs a s'
      → Parses (read >>= λ x. pure (f x)) s bs (f a) s'
  unfolding ◌>>=◌ pure
  Parses-last f first = record { parses = λ rest. rw (first.parses rest) refl }

  -- What follows a read and takes no bytes.
  pub Parses-finish {κ} :
      {B : Type κ} {read : Read A} (k : A → Read B) {s s1 s2 : Fstream} {bs : List ℕ} {a : A}
      {b : B}
      → Parses read s bs a s1
      → Parses (k a) s1 [] b s2
      → Parses (read >>= k) s bs b s2
  unfolding ◌>>=◌
  Parses-finish k first second = record {
    parses = λ rest. rw (first.parses rest) (second.parses rest);
  }

  pub Parses-then :
      {first : Read (Unit {0})} {read : Read A} {s s1 s2 : Fstream} {bs : List ℕ} {a : A}
      → Parses first s [] tt s1
      → Parses read s1 bs a s2
      → Parses (first >> read) s bs a s2
  unfolding ◌>>◌
  Parses-then {bs = bs} first second = record {
    parses = λ rest. rw (first.parses (bs ++ rest)) (second.parses rest);
  }

  pub Parses-known : (a : A) (s : Fstream) → Parses (known (some a)) s [] a s
  unfolding known
  Parses-known a s = record { parses = λ rest. refl }

pub Parses-change :
    (f : Fstream → Result StreamError Fstream) (s : Fstream) {s' : Fstream}
    → f s ≡ ok s'
    → Parses (change f) s [] tt s'
unfolding change
Parses-change f s h = record { parses = λ rest. rw h refl }

pub Parses-check :
    (b : Bool) (e : StreamError) (s : Fstream) → b ≡ true → Parses (check b e) s [] tt s
unfolding check
Parses-check true e s h = record { parses = λ rest. refl }
Parses-check false e s h = absurd cc

pub Parses-stream_state : (s : Fstream) → Parses stream_state s [] s s
unfolding stream_state
Parses-stream_state s = record { parses = λ rest. refl }

-- An integer of so many bytes.
abbrev pub IsUint : ℕ → ℕ → Type 0
IsUint w v = v < 256 ^ w

read_uint-write :
    (w v : ℕ) (s : Fstream) (rest : List ℕ)
    → IsUint w v
    → read_uint w s (write_uint w v ++ rest) ≡ ok (v, s, rest)
unfolding read_uint write_uint ◌>>=◌ pure read_byte
read_uint-write zero v s rest h = ap (λ (n : ℕ). ok (n, s, rest)) (omega arith)
read_uint-write (suc w) v s rest h =
    rw (read_uint-write w (v / 256) s rest (omega (arith, h, pow-suc 256 w)))
      (ap (λ (n : ℕ). ok (n, s, rest)) (omega arith))

pub Parses-read_uint :
    (w v : ℕ) (s : Fstream) → IsUint w v → Parses (read_uint w) s (write_uint w v) v s
Parses-read_uint w v s h = record { parses = λ rest. read_uint-write w v s rest h }

module _ {ℓ} {A : Type ℓ} (read : Read A) (write : A → List ℕ) (s : Fstream) where
  -- A read that takes back what is written of an element.
  abbrev pub TakesBack : A → Type ℓ
  TakesBack x = Parses read s (write x) x s

  pub Parses-read_elements :
      (xs : List A)
      → All TakesBack xs
      → Parses (read_elements (length xs) read) s (write_elements write xs) xs s
  unfolding read_elements write_elements
  Parses-read_elements [] h = Parses-pure [] s
  Parses-read_elements (x ∷ xs) (first, more) =
      Parses-bind _ first (Parses-last _ (Parses-read_elements xs more))

  pub Parses-read_container :
      (w : ℕ) (xs : List A)
      → IsUint w (length xs)
      → All TakesBack xs
      → Parses (read_container w read) s (write_container w write xs) xs s
  unfolding read_container write_container
  Parses-read_container w xs hw h =
      Parses-bind _ (Parses-read_uint w (length xs) s hw) (Parses-read_elements xs h)
