-- ===== src/BufferedReader/Fill.antt =====
-- stf-inc/stf_buffered_reader.hpp: the loop of `fillHalfBuffer_`.
use stf_lib.Common.{ℕ, suc, ◌+◌, ◌-◌, ◌%◌, ◌^◌, ◌≤◌, ◌<◌, bit_and}
use stf_lib.Common.{Bool, true, false, ltb, lt_or_ge, inl, inr, lt→ltb, ge→ltb}
use stf_lib.Common.{List, [], ◌∷◌}
use stf_lib.Common.{◌≡◌, refl, ap, ◌∙◌, arith}
use stf_lib.Common.Bits.{two_pow_pos}
use stf_lib.BufferedReader.{Entry, hidden, kept, BufferedReader}
use stf_lib.BufferedReader.{
  read_past_end, skip_item, keep_item, fill_loop, num_items_read_from_reader,
}
use stf_lib.BufferedReader.Slots.{mask_slot, previous_slot}
use native.Mathlib.Nat.{mod-add-mod, add-mod_right}
use stf_lib.BufferedReader.Filling.{Now, Done, Reading_skip, Reading_keep, stopped, ended, fewer}

module _ {ℓ} {A S : Type ℓ} (skipped_cleanup : A → S → S) (skipping_done : S → A → A × S)
    (leftover : A) (h : ℕ) (narrow : h ≤ 62) (all : List A) where
  abbrev read_on : ℕ → ℕ → Bool → BufferedReader A S → List (Entry A) → BufferedReader A S
  read_on = fill_loop skipped_cleanup skipping_done leftover

  -- The rounds of the loop of `fillHalfBuffer_`.
  module _ (max pos : ℕ) (did_skip : Bool) (r : BufferedReader A S) (c : ℕ)
      (before : (pos + 1) % 2 ^ suc h ≡ c % 2 ^ suc h) (masked : r.buffer_mask ≡ 2 ^ suc h - 1)
      (counted : r.num_read ≡ c + r.num_skipped_items) where
    next_slot : bit_and (pos + 1) r.buffer_mask ≡ c % 2 ^ suc h
    next_slot = rw masked (mask_slot h (pos + 1) ∙ before)

    in_loop : c < max → ltb (num_items_read_from_reader r) max ≡ true
    in_loop below = lt→ltb _ _ (omega (arith, below, counted))

    pub fill_end :
        c < max
        → read_on max pos did_skip r []
          ≡ read_past_end skipped_cleanup skipping_done leftover r (c % 2 ^ suc h)
    unfolding fill_loop
    fill_end below = rw (in_loop below, next_slot) refl

    fill_hidden :
        (x : A) (entries : List (Entry A))
        → c < max
        → read_on max pos did_skip r (hidden x ∷ entries)
          ≡ read_on max
              ((c + (2 ^ suc h - 1)) % 2 ^ suc h)
              true
              (skip_item skipped_cleanup skipping_done leftover r (c % 2 ^ suc h) x)
              entries
    unfolding fill_loop
    fill_hidden x entries below =
        rw (in_loop below, next_slot, masked, previous_slot h c narrow) refl

    fill_kept :
        (x : A) (entries : List (Entry A))
        → c < max
        → read_on max pos did_skip r (kept x ∷ entries)
          ≡ read_on max
              (c % 2 ^ suc h)
              false
              (keep_item skipped_cleanup skipping_done leftover did_skip r (c % 2 ^ suc h) x)
              entries
    unfolding fill_loop
    fill_kept x entries below = rw (in_loop below, next_slot) refl

    fill_over : c ≡ max → ltb (num_items_read_from_reader r) max ≡ false
    fill_over full = ge→ltb _ _ (omega (arith, full, counted))

    fill_stop :
        (entries : List (Entry A))
        → c ≡ max
        → read_on max pos did_skip r entries ≡ record r { source = entries }
    unfolding fill_loop
    fill_stop [] full = rw (fill_over full) refl
    fill_stop (hidden x ∷ entries) full = rw (fill_over full) refl
    fill_stop (kept x ∷ entries) full = rw (fill_over full) refl

  around : (c : ℕ) → (c + (2 ^ suc h - 1) + 1) % 2 ^ suc h ≡ c % 2 ^ suc h
  around c =
      ap (λ (t : ℕ). t % 2 ^ suc h) {y = c + 2 ^ suc h} (omega (arith, two_pow_pos (suc h)))
      ∙ add-mod_right c (2 ^ suc h)

  after : (c : ℕ) → (c % 2 ^ suc h + 1) % 2 ^ suc h ≡ suc c % 2 ^ suc h
  after c = mod-add-mod c (2 ^ suc h) 1 ∙ ap (λ (t : ℕ). t % 2 ^ suc h) {y = suc c} (omega arith)

  module _ (max : ℕ) where
    fill_full :
        (entries : List (Entry A)) (pos : ℕ) (did_skip : Bool) (r : BufferedReader A S) (c : ℕ)
        → (pos + 1) % 2 ^ suc h ≡ c % 2 ^ suc h
        → r.last_item_read ≡ false
        → Now skipped_cleanup skipping_done leftover h all did_skip did_skip r entries c
        → c ≡ max
        → (did_skip ≡ true → c < max)
        → Done skipped_cleanup skipping_done leftover h all
            (λ t. r.tail)
            c
            max
            r
            (read_on max pos did_skip r entries)
    fill_full entries pos did_skip r c before more now full skipping =
        rw (fill_stop max pos did_skip r c before now.1 now.2 entries full) (
          stopped skipped_cleanup skipping_done leftover h all did_skip max r entries c more now
            full skipping (λ t. r.tail) refl)

    pub fill_loop-Filled :
        (entries : List (Entry A)) (pos : ℕ) (did_skip : Bool) (r : BufferedReader A S) (c : ℕ)
        → (pos + 1) % 2 ^ suc h ≡ c % 2 ^ suc h
        → r.last_item_read ≡ false
        → Now skipped_cleanup skipping_done leftover h all did_skip did_skip r entries c
        → c ≤ max
        → (did_skip ≡ true → c < max)
        → Done skipped_cleanup skipping_done leftover h all
            (λ t. r.tail)
            c
            max
            r
            (read_on max pos did_skip r entries)
    fill_loop-Filled [] pos did_skip r c before more now bounded skipping = elim (lt_or_ge c max) [
      | inr full ↦ fill_full [] pos did_skip r c before more now (omega arith) skipping
      | inl below ↦ rw (fill_end max pos did_skip r c before now.1 now.2 below) (
          (ended skipped_cleanup skipping_done leftover h all did_skip did_skip max r c now below
            (λ t. r.tail) refl).0)
    ]
    fill_loop-Filled (hidden x ∷ entries) pos did_skip r c before more now bounded skipping =
        elim (lt_or_ge c max) [
          | inr full ↦
              fill_full (hidden x ∷ entries) pos did_skip r c before more now (omega arith) skipping
          | inl below ↦ rw (fill_hidden max pos did_skip r c before now.1 now.2 x entries below) (
              fewer skipped_cleanup skipping_done leftover h all (omega arith) refl refl (
                fill_loop-Filled entries ((c + (2 ^ suc h - 1)) % 2 ^ suc h) true
                  (skip_item skipped_cleanup skipping_done leftover r (c % 2 ^ suc h) x) c
                  (mod-add-mod (c + (2 ^ suc h - 1)) (2 ^ suc h) 1 ∙ around c) more
                  (Reading_skip skipped_cleanup skipping_done leftover h all did_skip r x entries c
                    now)
                  bounded (λ skipped. below)))
        ]
    fill_loop-Filled (kept x ∷ entries) pos did_skip r c before more now bounded skipping =
        elim (lt_or_ge c max) [
          | inr full ↦
              fill_full (kept x ∷ entries) pos did_skip r c before more now (omega arith) skipping
          | inl below ↦ rw (fill_kept max pos did_skip r c before now.1 now.2 x entries below) (
              fewer skipped_cleanup skipping_done leftover h all (omega arith) refl refl (
                fill_loop-Filled entries (c % 2 ^ suc h) false
                  (keep_item skipped_cleanup skipping_done leftover did_skip r (c % 2 ^ suc h) x)
                  (suc c) (after c) more
                  (Reading_keep skipped_cleanup skipping_done leftover h all did_skip r x entries c
                    now)
                  below (λ skipped. absurd cc)))
        ]
