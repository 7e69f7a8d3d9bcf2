-- ===== src/BufferedReader/State.antt =====
-- stf-inc/stf_buffered_reader.hpp: the state of the window between the operations, and the refills.
use stf_lib.Common.{ℕ, suc, ◌+◌, ◌-◌, ◌%◌, ◌^◌, ◌≤◌, ◌<◌}
use stf_lib.Common.{true, false, leb, Bool-cases, lt_or_ge, inl, inr, le→leb}
use stf_lib.Common.{List, [], length, get_elem?-length}
use stf_lib.Common.{drop-length, ◌≡◌, refl, sym, ap, ◌∙◌, arith, ok}
use stf_lib.Common.{◌⊎◌}
use stf_lib.Common.Bits.{two_pow_pos, two_pow_suc}
use stf_lib.BufferedReader.{Item, BufferedReader}
use stf_lib.BufferedReader.{validate_item_index}
use stf_lib.BufferedReader.Window.{Holds, shown, kept_items, kept_items_end}
use stf_lib.BufferedReader.Filling.{Reading}
use native.Mathlib.Nat.{add-mod_right}

module _ {ℓ} {A S : Type ℓ} (skipped_cleanup : A → S → S) (skipping_done : S → A → A × S) (h : ℕ)
    (all : List A) where
  -- The window after the first `c` items of `all` are read; whole halves are read up to the end.
  pub record Window (r : BufferedReader A S) (c : ℕ) : Type ℓ where
    pub reading :
        Reading skipped_cleanup skipping_done (2 ^ suc h) all r.last_item_read false r r.source c
    pub some_read : 1 ≤ c
    pub at_tail : r.tail ≡ (c - 1) % 2 ^ suc h
    pub at_head : r.head ≡ (c - 2 ^ suc h) % 2 ^ suc h
    pub whole : r.last_item_read ≡ false → (2 ^ suc h ≤ c) × (c % 2 ^ h ≡ 0)
    pub exhausted : r.last_item_read ≡ true → r.source ≡ []
    pub blanked : r.last_item_read ≡ true → (r.buf (c % 2 ^ suc h)).index ≡ 0

  -- The window holds item `k`.
  abbrev pub At : BufferedReader A S → ℕ → ℕ → Type 0
  At r c k = (k < c) × (c ≤ k + 2 ^ suc h) × (r.last_item_read ≡ true → c < k + 2 ^ suc h)

  module _ (r : BufferedReader A S) (c : ℕ) (window : Window r c) where
    -- Once the reader has met the end of the trace, it has read all items.
    pub all_read : r.last_item_read ≡ true → length all ≡ c
    all_read end = drop-length c all window.reading.3 (
        window.reading.4
        ∙ ap (kept_items skipped_cleanup skipping_done r.state false) (window.exhausted end)
        ∙ kept_items_end skipped_cleanup skipping_done r.state false)

    -- The ends of the window.
    pub newest_shown : (x : A) × (r.buf r.tail ≡ shown (c - 1) x)
    unfolding Holds
    newest_shown =
        let (x, found) =
          get_elem?-length all (c - 1) (omega (arith, window.some_read, window.reading.3)) in
        (
          x,
          rw (window.at_tail) (
              window.reading.5 (c - 1) x (omega (arith, window.some_read))
                (omega (arith, two_pow_pos (suc h)))
                (λ end. omega (arith, two_pow_suc h, two_pow_pos h, window.some_read)) found),
        )

    -- The oldest item in place: the window is not full, or the trace has not ended.
    pub oldest_shown :
        c < 2 ^ suc h ⊎ (r.last_item_read ≡ false) → (r.buf r.head).index ≡ suc (c - 2 ^ suc h)
    unfolding Holds
    oldest_shown in_place =
        let k = c - 2 ^ suc h in
        let (x, found) =
          get_elem?-length all k
            (omega (arith, window.some_read, window.reading.3, two_pow_pos (suc h))) in
        rw (window.at_head) (
          ap (λ (item : Item A). item.index)
            (window.reading.5 k x (omega (arith, window.some_read, two_pow_pos (suc h)))
              (omega arith) (strict in_place) found))
      where
        strict :
            c < 2 ^ suc h ⊎ (r.last_item_read ≡ false)
            → r.last_item_read ≡ true
            → c < c - 2 ^ suc h + 2 ^ suc h
        strict (inl small) end = omega (arith, small)
        strict (inr more) end = absurd cc

    overwritten_index : 2 ^ suc h ≤ c → r.last_item_read ≡ true → (r.buf r.head).index ≡ 0
    overwritten_index full end =
        let slot : (c - 2 ^ suc h) % 2 ^ suc h ≡ c % 2 ^ suc h =
          sym (add-mod_right (c - 2 ^ suc h) (2 ^ suc h))
          ∙ ap (λ (t : ℕ). t % 2 ^ suc h) {y = c} (omega (arith, full)) in
        rw (window.at_head, slot) (window.blanked end)

    pub oldest_index : (r.buf r.head).index ≤ suc (c - 2 ^ suc h)
    oldest_index = elim (Bool-cases (r.last_item_read)) [
      | inr more ↦ omega (arith, oldest_shown (inr more))
      | inl end ↦ elim (lt_or_ge c (2 ^ suc h)) [
        | inl small ↦ omega (arith, oldest_shown (inl small))
        | inr full ↦ omega (arith, overwritten_index full end)
      ]
    ]

    pub validate_item_index_ok :
        (k : ℕ) → k < c → c ≤ k + 2 ^ suc h → validate_item_index r (suc k) ≡ ok tt
    unfolding validate_item_index
    validate_item_index_ok k below above =
        let (x, newest) = newest_shown in
        let first : leb (r.buf r.head).index (suc k) ≡ true =
          le→leb _ _ (omega (arith, oldest_index, above)) in
        let second : leb (suc k) (suc (c - 1)) ≡ true = le→leb _ _ (omega (arith, below)) in
        rw (newest, first, second) refl
