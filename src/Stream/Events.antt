-- ===== src/Stream/Events.antt =====
-- The conversions of an event type between 64 and 32 bits: EventRecord of
-- stf-inc/stf_record_types.hpp.
use stf_lib.Common.{ℕ, ◌+◌, ◌-◌, ◌*◌, ◌/◌, ◌%◌, ◌^◌, ◌<◌, ◌≡◌, ap, ◌∙◌, arith, bit_and, bit_or}
use stf_lib.Common.Bits.{bit_and_low, bit_and_field, bit_or_low}

-- INTERRUPT_MASK | SPECIAL_MASK, for 64 and for 32 bits.
abbrev pub event64_top_bits : ℕ
event64_top_bits = bit_or (2 ^ 63) (2 ^ 62)

abbrev pub event32_top_bits : ℕ
event32_top_bits = bit_or (2 ^ 31) (2 ^ 30)

unfoldable pub convert_to_32bit_event : ℕ → ℕ
convert_to_32bit_event event =
    bit_or (event % 2 ^ 32) (bit_and event event64_top_bits / 2 ^ 32 % 2 ^ 32)

unfoldable pub convert_from_32bit_event : ℕ → ℕ
convert_from_32bit_event event32 =
    bit_or (bit_and event32 (2 ^ 32 - 1 - event32_top_bits))
      (bit_and event32 event32_top_bits * 2 ^ 32 % 2 ^ 64)

high_part :
    (top number : ℕ)
    → top < 4
    → number < 2 ^ 30
    → bit_and (top * 2 ^ 62 + number) event64_top_bits / 2 ^ 32 % 2 ^ 32 ≡ top * 2 ^ 30
high_part top number ht hn = omega (arith, bit_and_field 62 2 (top * 2 ^ 62 + number))

low_part : (top number : ℕ) → top < 4 → number < 2 ^ 30 → (top * 2 ^ 62 + number) % 2 ^ 32 ≡ number
low_part top number ht hn = omega arith

pub convert_to_32bit_event_lem :
    (top number : ℕ)
    → top < 4
    → number < 2 ^ 30
    → convert_to_32bit_event (top * 2 ^ 62 + number) ≡ number + top * 2 ^ 30
unfolding convert_to_32bit_event
convert_to_32bit_event_lem top number ht hn =
    ap (λ (t : ℕ). bit_or t (bit_and (top * 2 ^ 62 + number) event64_top_bits / 2 ^ 32 % 2 ^ 32))
      (low_part top number ht hn)
    ∙ ap (λ (t : ℕ). bit_or number t) (high_part top number ht hn)
    ∙ bit_or_low 30 number (top * 2 ^ 30) hn (omega arith)

number_part :
    (top number : ℕ)
    → number < 2 ^ 30
    → bit_and (number + top * 2 ^ 30) (2 ^ 32 - 1 - event32_top_bits) ≡ number
number_part top number hn = omega (arith, bit_and_low 30 (number + top * 2 ^ 30))

top_part :
    (top number : ℕ)
    → top < 4
    → number < 2 ^ 30
    → bit_and (number + top * 2 ^ 30) event32_top_bits * 2 ^ 32 % 2 ^ 64 ≡ top * 2 ^ 62
top_part top number ht hn = omega (arith, bit_and_field 30 2 (number + top * 2 ^ 30))

convert_from_32bit_event_lem :
    (top number : ℕ)
    → top < 4
    → number < 2 ^ 30
    → convert_from_32bit_event (number + top * 2 ^ 30) ≡ top * 2 ^ 62 + number
unfolding convert_from_32bit_event
convert_from_32bit_event_lem top number ht hn =
    ap (λ (t : ℕ). bit_or t (bit_and (number + top * 2 ^ 30) event32_top_bits * 2 ^ 32 % 2 ^ 64))
      (number_part top number hn)
    ∙ ap (λ (t : ℕ). bit_or number t) (top_part top number ht hn)
    ∙ bit_or_low 30 number (top * 2 ^ 62) hn (omega arith)
    ∙ omega arith

-- An event type that has only its number, below 2 to the 30, and the two top bits comes back from
-- 32 bits.
pub convert_from-convert_to :
    (top number : ℕ)
    → top < 4
    → number < 2 ^ 30
    → convert_from_32bit_event (convert_to_32bit_event (top * 2 ^ 62 + number))
      ≡ top * 2 ^ 62 + number
convert_from-convert_to top number ht hn =
    rw (convert_to_32bit_event_lem top number ht hn) (convert_from_32bit_event_lem top number ht hn)
