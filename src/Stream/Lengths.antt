-- ===== src/Stream/Lengths.antt =====
-- Reading takes bytes off the front: no read leaves more bytes than it found.
use stf_lib.Common.{
  ℕ, zero, suc, ◌+◌, ◌*◌, ◌≤◌, arith, Bool, true, false, List, [], ◌∷◌, length, Option, none, some,
  Result, ok, err, Ensures, gives, throws,
}
use native.Mathlib.Nat.{le_refl}
use stf_lib.Stream.{Fstream, StreamError}
use stf_lib.Stream.Reads.{
  Read, pure, go_on, ◌>>=◌, ◌>>◌, stream_state, change, changed, check, known, read_byte, read_uint,
  read_elements, read_container,
}

abbrev pub Leaves {ℓ} : {A : Type ℓ} → ℕ → A × Fstream × List ℕ → Type 0
Leaves n (a, s, rest) = length rest ≤ n

pub record NoLonger {ℓ} {A : Type ℓ} (read : Read A) : Type ℓ where
  pub leaves : (s : Fstream) (bytes : List ℕ) → Ensures (Leaves (length bytes)) (read s bytes)

weaken {ℓ} :
    {A : Type ℓ} (n k : ℕ) (m : Result StreamError (A × Fstream × List ℕ))
    → n ≤ k
    → Ensures (Leaves n) m
    → Ensures (Leaves k) m
weaken n k m h (throws e) = throws e
weaken n k m h (gives (a, s, rest) below) = gives _ (omega (arith, below))

take_byte : (s : Fstream) (bytes : List ℕ) → Ensures (Leaves (length bytes)) (read_byte s bytes)
unfolding read_byte
take_byte s [] = throws _
take_byte s (b ∷ rest) = gives _ (omega arith)

module _ {ℓ} {A : Type ℓ} where
  pub NoLonger-go_on {κ} :
      {B : Type κ} (k : A → Read B) (n : ℕ) (m : Result StreamError (A × Fstream × List ℕ))
      → Ensures (Leaves n) m
      → ((a : A) → NoLonger (k a))
      → Ensures (Leaves n) (go_on m k)
  NoLonger-go_on k n m (throws e) rest = throws e
  NoLonger-go_on k n m (gives (a, s, bytes) h) rest =
      weaken (length bytes) n _ h ((rest a).leaves s bytes)

pub NoLonger-bind {ℓ κ} :
    {A : Type ℓ} {B : Type κ} {read : Read A} {k : A → Read B}
    → NoLonger read
    → ((a : A) → NoLonger (k a))
    → NoLonger (read >>= k)
unfolding ◌>>=◌
NoLonger-bind {read = read} {k} first rest = record {
  leaves = λ s bytes. NoLonger-go_on k (length bytes) (read s bytes) (first.leaves s bytes) rest;
}

pub NoLonger-then {ℓ} :
    {A : Type ℓ} {first : Read (Unit {0})} {read : Read A}
    → NoLonger first
    → NoLonger read
    → NoLonger (first >> read)
unfolding ◌>>◌
NoLonger-then {first = first} {read} h rest = record {
  leaves = λ s bytes.
      NoLonger-go_on (λ done. read) (length bytes) (first s bytes) (h.leaves s bytes)
        (λ done. rest);
}

pub NoLonger-pure {ℓ} : {A : Type ℓ} (a : A) → NoLonger (pure a)
unfolding pure
NoLonger-pure a = record { leaves = λ s bytes. gives _ (le_refl (length bytes)) }

pub NoLonger-stream_state : NoLonger stream_state
unfolding stream_state
NoLonger-stream_state = record { leaves = λ s bytes. gives _ (le_refl (length bytes)) }

changed-Leaves :
    (m : Result StreamError Fstream) (bytes : List ℕ)
    → Ensures (Leaves (length bytes)) (changed m bytes)
changed-Leaves (err e) bytes = throws e
changed-Leaves (ok s) bytes = gives _ (le_refl (length bytes))

pub NoLonger-change : (f : Fstream → Result StreamError Fstream) → NoLonger (change f)
unfolding change
NoLonger-change f = record { leaves = λ s bytes. changed-Leaves (f s) bytes }

pub NoLonger-check : (b : Bool) (e : StreamError) → NoLonger (check b e)
unfolding check
NoLonger-check true e = record { leaves = λ s bytes. gives _ (le_refl (length bytes)) }
NoLonger-check false e = record { leaves = λ s bytes. throws e }

pub NoLonger-known {ℓ} : {A : Type ℓ} (o : Option A) → NoLonger (known o)
unfolding known
NoLonger-known none = record { leaves = λ s bytes. throws _ }
NoLonger-known (some a) = record { leaves = λ s bytes. gives _ (le_refl (length bytes)) }

pub NoLonger-read_byte : NoLonger read_byte
unfolding read_byte
NoLonger-read_byte = record { leaves = take_byte }

pub NoLonger-read_uint : (w : ℕ) → NoLonger (read_uint w)
unfolding read_uint
NoLonger-read_uint zero = NoLonger-pure 0
NoLonger-read_uint (suc w) =
    NoLonger-bind NoLonger-read_byte
      (λ low. NoLonger-bind (NoLonger-read_uint w) (λ high. NoLonger-pure (low + 256 * high)))

module _ {ℓ} {A : Type ℓ} {read : Read A} (h : NoLonger read) where
  pub NoLonger-read_elements : (n : ℕ) → NoLonger (read_elements n read)
  unfolding read_elements
  NoLonger-read_elements zero = NoLonger-pure []
  NoLonger-read_elements (suc n) =
      NoLonger-bind h (λ x. NoLonger-bind (NoLonger-read_elements n) (λ xs. NoLonger-pure (x ∷ xs)))

  pub NoLonger-read_container : (w : ℕ) → NoLonger (read_container w read)
  unfolding read_container
  NoLonger-read_container w = NoLonger-bind (NoLonger-read_uint w) NoLonger-read_elements

pub NoLonger-refused {ℓ} : {A : Type ℓ} (e : StreamError) → NoLonger {A = A} (λ s bytes. err e)
NoLonger-refused e = record { leaves = λ s bytes. throws e }

pub ruleset no_longer_rules = (
  NoLonger-bind, NoLonger-then, NoLonger-pure, NoLonger-stream_state, NoLonger-change,
  NoLonger-check, NoLonger-known, NoLonger-read_uint, NoLonger-read_elements,
  NoLonger-read_container,
)
