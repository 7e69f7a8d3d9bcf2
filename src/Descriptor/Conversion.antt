-- ===== src/Descriptor/Conversion.antt =====
-- `toInternal` and `toEncoded` of stf-inc/stf_descriptor.hpp.
use stf_lib.Common.{ℕ, zero, suc, ◌+◌, ◌<◌, ◌≡◌, ◌≢◌, refl, arith, ◌==◌}
use stf_lib.Common.{
  Bool, true, false, ◌&&◌, ◌||◌, Option, none, some, List, [], ◌∷◌, length, get_elem?, ◌≤◌,
}
use stf_lib.Descriptor.{
  Descriptor, encoded, internal, to_internal, to_encoded, desc_array, enum_size,
}
use native.Mathlib.Decide.{dec_lt}

-- The table takes the encoded number of every descriptor to its internal number.
pub to_internal-encoded : (d : Descriptor) → to_internal (encoded d) ≡ some (internal d)
unfolding to_internal
to_internal-encoded Descriptor.reserved = refl
to_internal-encoded _ = refl

pub to_encoded-internal : (d : Descriptor) → to_encoded (internal d) ≡ some (encoded d)
unfolding to_encoded
to_encoded-internal Descriptor.reserved = refl
to_encoded-internal _ = refl

-- Every test on a number below a bound, by evaluation.
check_below : (ℕ → Bool) → ℕ → Bool
check_below test zero = true
check_below test (suc n) = test n && check_below test n

check_below_sound : (test : ℕ → Bool) (n i : ℕ) → check_below test n ≡ true → i < n → test i ≡ true
unfolding check_below
check_below_sound test zero i e h = absurd (omega arith)
check_below_sound test (suc n) i e h = ground (arith, check_below_sound test n i)

get_elem?-none : (xs : List ℕ) (i : ℕ) → length xs ≤ i → get_elem? xs i ≡ none
get_elem?-none [] i h = refl
get_elem?-none (x ∷ xs) zero h = absurd (omega arith)
get_elem?-none (x ∷ xs) (suc i) h = get_elem?-none xs i (omega arith)

abbrev is_some_of : Option ℕ → ℕ → Bool
is_some_of none d = false
is_some_of (some e) d = e == d

-- The number that the table has for a value outside the enumeration.
abbrev pub gap : ℕ
gap = encoded Descriptor.reserved_end + 1

maps_back : ℕ → Bool
maps_back d = elim (to_internal d) [
  | none ↦ false
  | some i ↦ i == gap || is_some_of (to_encoded i) d
]

maps_back_table : check_below maps_back 253 ≡ true
unfolding check_below maps_back to_internal to_encoded
maps_back_table = refl

to_internal_out_of_range : (d : ℕ) → 253 ≤ d → to_internal d ≡ none
unfolding to_internal
to_internal_out_of_range d h =
    get_elem?-none (desc_array encoded internal 0 (enum_size encoded)) d h

cases_back :
    (o : Option ℕ) (d i : ℕ)
    → (elim o [ none ↦ false | some i ↦ i == 253 || is_some_of (to_encoded i) d ]) ≡ true
    → o ≡ some i
    → i ≢ 253
    → to_encoded i ≡ some d
cases_back none d i t e n = cc
cases_back (some j) d i t e n = ground arith

-- A byte of a trace that converts to an internal descriptor, and not to the mark for a gap, is
-- the encoding of that descriptor.
pub to_encoded-to_internal : (d i : ℕ) → to_internal d ≡ some i → i ≢ gap → to_encoded i ≡ some d
unfolding encoded maps_back
to_encoded-to_internal d i e n = elim (dec_lt d 253) [
  | yes h ↦ cases_back (to_internal d) d i (check_below_sound maps_back 253 d maps_back_table h) e n
  | no h ↦ cc (to_internal_out_of_range d (omega arith))
]
