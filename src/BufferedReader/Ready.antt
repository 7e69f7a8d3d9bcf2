-- ===== src/BufferedReader/Ready.antt =====
-- stf-inc/stf_buffered_reader.hpp: `getItem_` on a window, and the refill in `moveToNextItem_`.
use stf_lib.Common.{ℕ, suc, ◌-◌, ◌%◌, ◌^◌, ◌≤◌}
use stf_lib.Common.{true, false, ◌==◌, if◌then◌else◌, Bool-cases, inl, inr, ◌≢◌}
use stf_lib.Common.{List, some, get_elem?, length}
use stf_lib.Common.{◌≡◌, refl, sym, ap, ◌∙◌, arith, ok, ==_iff}
use stf_lib.Common.Bits.{two_pow_pos, two_pow_suc, two_pow-lt}
use stf_lib.BufferedReader.{BufferedReader, previous}
use stf_lib.BufferedReader.{get_item, fill_half_buffer}
use stf_lib.BufferedReader.Slots.{full_not-zero, before_newest, previous_of_newest}
use stf_lib.BufferedReader.Window.{Holds, shown}
use stf_lib.BufferedReader.State.{Window, all_read, At, validate_item_index_ok}
use stf_lib.BufferedReader.Refill.{fill_half_buffer-Refilled}
use native.Mathlib.Nat.{pow-le-pow_right}

module _ {ℓ} {A S : Type ℓ} (skipped_cleanup : A → S → S) (skipping_done : S → A → A × S)
    (leftover : A) (h : ℕ) (wide : 1 ≤ h) (narrow : h ≤ 62) (all : List A) where
  abbrev View : BufferedReader A S → ℕ → Type ℓ
  View = Window skipped_cleanup skipping_done h all

  abbrev Here : BufferedReader A S → ℕ → ℕ → Type 0
  Here = At skipped_cleanup skipping_done h all

  pub narrow_size : 2 ^ suc h ≤ 2 ^ 63
  narrow_size = pow-le-pow_right {n = 2} (omega arith) {j = 63} (omega (arith, narrow))

  -- `getItem_` of an item in the window.
  pub get_item_lem :
      (r : BufferedReader A S) (c k : ℕ) (x : A)
      → View r c
      → Here r c k
      → get_elem? all k ≡ some x
      → get_item r (suc k) (k % 2 ^ suc h) ≡ ok (shown k x)
  unfolding get_item Holds
  get_item_lem r c k x window (below, above, strict) found =
      rw
        (
          validate_item_index_ok skipped_cleanup skipping_done h all r c window k below above,
          window.reading.5 k x below above strict found,
        )
        refl

  -- The reader after the refill that a move past item `k` may make.
  pub record Ready (c k : ℕ) (r' : BufferedReader A S) : Type ℓ where
    pub count : ℕ
    pub window : View r' count
    pub at : Here r' count k
    pub ended_here : suc k ≡ count → length all ≡ suc k
    pub ended_next : suc (suc k) ≡ count → length all ≡ suc (suc k)
    pub grows : c ≤ count

  module _ (r : BufferedReader A S) (c k : ℕ) (window : View r c) (at : Here r c k)
      (live : suc k ≡ c → length all ≡ suc k) where
    refilled_Ready :
        suc (suc k) ≡ c → Ready c k (fill_half_buffer skipped_cleanup skipping_done leftover r)
    refilled_Ready second =
        let refilled =
          fill_half_buffer-Refilled skipped_cleanup skipping_done leftover h narrow all r c
            window in
        let half = two_pow-lt 0 h wide in
        let size = two_pow_suc h in
        record {
          count = refilled.count;
          window = refilled.window;
          at = (
            omega (arith, refilled.grows),
            omega (arith, refilled.bounded, half, size),
            λ end. omega (arith, refilled.short end, half, size),
          );
          ended_here = λ here. absurd (omega (arith, here, refilled.grows));
          ended_next = λ next.
              elim (Bool-cases
                ((fill_half_buffer skipped_cleanup skipping_done leftover r).last_item_read)) [
                  | inl end ↦
                      all_read skipped_cleanup skipping_done h all _ refilled.count refilled.window
                        end
                      ∙ sym next
                  | inr more ↦ absurd (omega (arith, next, refilled.filled more, half))
                ];
          grows = refilled.grows;
        }

    -- Without a refill, the next item is the last one only at the end of the trace.
    no_refill :
        (k % 2 ^ suc h == previous r.tail) ≡ false → suc (suc k) ≡ c → r.last_item_read ≡ false → ⊥
    no_refill inner second more =
        let whole = window.whole more in
        let equal_far : (k % 2 ^ suc h == previous r.tail) ≢ true = λ near. absurd cc in
        let same : k % 2 ^ suc h ≡ previous ((c - 1) % 2 ^ suc h) =
          previous_of_newest (2 ^ suc h) (two_pow_pos (suc h)) narrow_size k c at.0 at.1 second (
            full_not-zero h (c - 1) wide
              (ap (λ (t : ℕ). t % 2 ^ h) {y = c} (omega arith) ∙ whole.1)) in
        let same_slot = same ∙ ap previous (sym window.at_tail) in
        absurd (equal_far ((==_iff (k % 2 ^ suc h) (previous r.tail)).1 same_slot))

    kept_Ready : (k % 2 ^ suc h == previous r.tail) ≡ false → Ready c k r
    kept_Ready inner = record {
      count = c;
      window = window;
      at = at;
      ended_here = live;
      ended_next = λ next. elim (Bool-cases (r.last_item_read)) [
        | inl end ↦ all_read skipped_cleanup skipping_done h all r c window end ∙ sym next
        | inr more ↦ absurd (no_refill inner next more)
      ];
      grows = omega arith;
    }

    abbrev pub refilled_if_near : BufferedReader A S
    refilled_if_near =
        if k % 2 ^ suc h == previous r.tail
        then fill_half_buffer skipped_cleanup skipping_done leftover r
        else r

    pub refill_Ready : Ready c k refilled_if_near
    refill_Ready = elim (Bool-cases (k % 2 ^ suc h == previous r.tail)) [
      | inl near ↦ rw near (
          refilled_Ready (
            before_newest (2 ^ suc h) (two_pow_pos (suc h)) narrow_size k c at.0 at.1
              ((==_iff (k % 2 ^ suc h) (previous r.tail)).0 near ∙ ap previous window.at_tail)))
      | inr far ↦ rw far (kept_Ready far)
    ]
