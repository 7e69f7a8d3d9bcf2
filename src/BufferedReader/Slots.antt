-- ===== src/BufferedReader/Slots.antt =====
-- stf-inc/stf_buffered_reader.hpp: item `k` of the trace, counted from 0, stands in slot `k % size`;
-- arithmetic of the slots, and the masks that compute them.
use stf_lib.Common.{ℕ, zero, suc, ◌+◌, ◌-◌, ◌*◌, ◌%◌, ◌^◌, ◌≤◌, ◌<◌, bit_and}
use stf_lib.Common.{◌≡◌, sym, ap, ◌∙◌, ◌≢◌, inl, inr, arith, lt_or_ge}
use stf_lib.Common.Bits.{bit_and_low, two_pow_pos, two_pow-add, two_pow_suc, two_pow-lt}
use native.Mathlib.Nat.{
  mod-add-mod, mod-eq_of_lt, mod-eq-sub-mod, mod-lt, zero-mod, mod-mod, add-mul-mod_self_right,
  mod-mod_of_dvd, dvd-mul_left,
}
use mathlib.Core.Path.{subst}
use stf_lib.BufferedReader.{previous}

module _ (size : ℕ) (positive : 0 < size) where
  -- A sum below twice the size.
  mod_once : (x : ℕ) → size ≤ x → x < size + size → x % size ≡ x - size
  mod_once x h above = rw (mod-eq-sub-mod h) (mod-eq_of_lt (omega arith))

  pub same_slot : (k d : ℕ) → d < size → k % size ≡ (k + d) % size → d ≡ 0
  same_slot k d small h =
      let r = k % size in
      let below = mod-lt k positive in
      let sum = mod-add-mod k size d in
      elim (lt_or_ge (r + d) size) [
        | inl fits ↦ omega (arith, sum, mod-eq_of_lt fits, h)
        | inr wraps ↦ omega (arith, sum, mod_once (r + d) wraps (omega arith), h)
      ]

  pub other_slot : (k c : ℕ) → k < c → c < k + size → k % size ≢ c % size
  other_slot k c below above = λ same. absurd (
      omega (
        arith,
        same_slot k (c - k) (omega arith)
            (same ∙ ap (λ (t : ℕ). t % size) {y = k + (c - k)} (omega arith)),
      ))

  pub slot_before : (x : ℕ) → (x + 1) % size ≢ 0 → x % size + 1 ≡ (x + 1) % size
  slot_before x h = elim (lt_or_ge (x % size + 1) size) [
    | inl fits ↦ sym (mod-eq_of_lt fits) ∙ mod-add-mod x size 1
    | inr wraps ↦ absurd (
        h (
          sym (mod-add-mod x size 1)
          ∙ mod_once (x % size + 1) wraps (omega (arith, mod-lt x positive))
          ∙ omega (arith, mod-lt x positive)))
  ]

-- A remainder by a multiple of the size, reduced again.
mod_of_multiple : (size q x : ℕ) → x % (q * size) % size ≡ x % size
mod_of_multiple size q x = mod-mod_of_dvd size x (dvd-mul_left size q)

drop_multiple :
    (size q y : ℕ) → 0 < size → 0 < q → (y + (q * size - 1)) % size ≡ (y + (size - 1)) % size
drop_multiple size zero y positive some_block = elim some_block [ ]
drop_multiple size (suc p) y positive some_block =
    ap (λ (t : ℕ). t % size) (the_sum) ∙ add-mul-mod_self_right (y + (size - 1)) p size
  where
    the_sum : y + (suc p * size - 1) ≡ y + (size - 1) + p * size
    the_sum = omega arith

-- One before a slot, at the width of `size_t`.
previous_in_block :
    (size q c : ℕ)
    → 0 < size
    → 0 < q
    → (c % size + (q * size - 1)) % (q * size) % size ≡ (c + (size - 1)) % size
previous_in_block size q c positive some_block =
    mod_of_multiple size q (c % size + (q * size - 1))
    ∙ drop_multiple size q (c % size) positive some_block
    ∙ mod-add-mod c size (size - 1)

module _ (h : ℕ) where
  pub mask_slot : (x : ℕ) → bit_and x (2 ^ suc h - 1) ≡ x % 2 ^ suc h
  mask_slot x = bit_and_low (suc h) x

  pub previous_slot :
      (c : ℕ)
      → h ≤ 62
      → bit_and (previous (c % 2 ^ suc h)) (2 ^ suc h - 1) ≡ (c + (2 ^ suc h - 1)) % 2 ^ suc h
  previous_slot c small = rw mask_slot (
      subst
        (λ (w : ℕ). (c % 2 ^ suc h + (w - 1)) % w % 2 ^ suc h ≡ (c + (2 ^ suc h - 1)) % 2 ^ suc h)
        (sym (two_pow-add (63 - h) (suc h)) ∙ ap (λ (t : ℕ). 2 ^ t) {y = 64} (omega arith))
        (previous_in_block (2 ^ suc h) (2 ^ (63 - h)) c (two_pow_pos (suc h))
          (two_pow_pos (63 - h))))

  pub full_not-zero : (x : ℕ) → 1 ≤ h → (x + 1) % 2 ^ h ≡ 0 → x % 2 ^ suc h ≢ 0
  full_not-zero x large whole = λ zero_slot.
      let reduced : x % 2 ^ h ≡ 0 =
        sym (mod_of_multiple (2 ^ h) 2 x)
        ∙ ap (λ (t : ℕ). x % t % 2 ^ h) (sym (two_pow_suc h))
        ∙ ap (λ (t : ℕ). t % 2 ^ h) zero_slot
        ∙ zero-mod (2 ^ h) in
      let one_left = mod-add-mod x (2 ^ h) 1 in
      let two_slots = two_pow-lt 0 h large in
      absurd (
        omega (
          arith,
          whole,
          reduced,
          mod-eq_of_lt two_slots,
          sym one_left ∙ ap (λ (t : ℕ). (t + 1) % 2 ^ h) reduced,
        ))

-- Where the refill is triggered: the tail's slot, less one at the width of `size_t`.
module _ (size : ℕ) (positive : 0 < size) (narrow : size ≤ 2 ^ 63) (k c : ℕ) (below : k < c)
    (above : c ≤ k + size) where
  pub at_newest : k % size ≡ (c - 1) % size → suc k ≡ c
  at_newest same = omega (
    arith,
    same_slot size positive k (c - 1 - k) (omega arith)
        (same ∙ ap (λ (t : ℕ). t % size) {y = k + (c - 1 - k)} (omega arith)),
  )

  -- A slot before the tail's: the tail's is not the first.
  one_before : k % size ≡ previous ((c - 1) % size) → k % size + 1 ≡ (c - 1) % size
  one_before same = omega (arith, same, mod-lt k positive, mod-lt (c - 1) positive)

  pub before_newest : k % size ≡ previous ((c - 1) % size) → suc (suc k) ≡ c
  before_newest same = elim (lt_or_ge (suc k) c) [
    | inr last ↦
        let newest : k ≡ c - 1 = omega arith in
        absurd (omega (arith, one_before same, ap (λ (t : ℕ). t % size) newest))
    | inl earlier ↦
        let next : suc k % size ≡ (c - 1) % size =
          ap (λ (t : ℕ). t % size) {y = k + 1} (omega arith)
          ∙ sym (mod-add-mod k size 1)
          ∙ ap (λ (t : ℕ). t % size) (one_before same)
          ∙ mod-mod (c - 1) size in
        omega (
          arith,
          same_slot size positive (suc k) (c - 1 - suc k) (omega arith)
              (next ∙ ap (λ (t : ℕ). t % size) {y = suc k + (c - 1 - suc k)} (omega arith)),
        )
  ]

  pub previous_of_newest :
      suc (suc k) ≡ c → (c - 1) % size ≢ 0 → k % size ≡ previous ((c - 1) % size)
  previous_of_newest second inner =
      let same : c - 1 ≡ k + 1 = omega arith in
      let slot =
        slot_before size positive k
          (λ zero_slot. inner (ap (λ (t : ℕ). t % size) same ∙ zero_slot)) in
      omega (arith, slot, ap (λ (t : ℕ). t % size) same, mod-lt (c - 1) positive)
