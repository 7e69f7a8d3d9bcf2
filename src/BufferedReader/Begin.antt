-- ===== src/BufferedReader/Begin.antt =====
-- stf-inc/stf_buffered_reader.hpp: `begin()` on a new reader, and the loop from there to `end()`.
use stf_lib.Common.{ℕ, suc, ◌-◌, ◌%◌, ◌^◌, ◌≤◌, ◌<◌}
use stf_lib.Common.{Bool, true, false, ◌==◌, Bool-cases, lt_or_ge, inl, inr}
use stf_lib.Common.{List, [], drop, length, get_elem?-length}
use mathlib.Core.Path.{subst}
use stf_lib.Common.{◌≡◌, refl, sym, ap, ◌∙◌, arith, ok, ==_iff}
use stf_lib.Common.Bits.{two_pow_pos, two_pow_suc}
use stf_lib.BufferedReader.{Entry, Item, BufferedReader, previous, Iterator}
use stf_lib.BufferedReader.{begin, new_buffered_reader, init_item_buffer, init_loop}
use stf_lib.BufferedReader.Window.{Holds, kept_items, kept_items_end}
use stf_lib.BufferedReader.Filling.{Done}
use stf_lib.BufferedReader.Init.{init_loop-Filled}
use stf_lib.BufferedReader.State.{Window, At, all_read}
use stf_lib.BufferedReader.Ready.{narrow_size}
use stf_lib.BufferedReader.Iterate.{visit, visit_from, visit_end, numbered}
use native.Mathlib.Nat.{mod-eq_of_lt, mul-mod_left}

Holds-nothing {ℓ} :
    {A : Type ℓ} (size : ℕ) (overwritten : Bool) (all : List A) (buf : ℕ → Item A)
    → Holds size overwritten all buf 0
unfolding Holds
Holds-nothing size overwritten all buf k x below above strict found = absurd (omega (arith, below))

module _ {ℓ} {A S : Type ℓ} (skipped_cleanup : A → S → S) (skipping_done : S → A → A × S)
    (leftover : A) where
  abbrev pub read_first : BufferedReader A S → BufferedReader A S
  read_first r = init_loop skipped_cleanup skipping_done leftover 0 false r r.source

  abbrev pub point_at_ends : BufferedReader A S → BufferedReader A S
  point_at_ends r = record r { buffer_is_empty = false; tail = previous r.tail; head = 0 }

  -- `begin()` after the loop of `initItemBuffer_`.
  begin_some :
      (r : BufferedReader A S)
      → ((read_first r).tail == 0) ≡ false
      → begin skipped_cleanup skipping_done leftover r ≡ (
        record { index = ((read_first r).buf 0).index; loc = 0; end = false },
        point_at_ends (read_first r),
      )
  unfolding begin init_item_buffer
  begin_some r some_read = rw some_read refl

  pub begin_none :
      (r : BufferedReader A S)
      → ((read_first r).tail == 0) ≡ true
      → begin skipped_cleanup skipping_done leftover r ≡ (
        record { index = ((read_first r).buf (read_first r).head).index; loc = 0; end = true },
        record (read_first r) { buffer_is_empty = true },
      )
  unfolding begin init_item_buffer
  begin_none r none_read = rw none_read refl

  module _ (h : ℕ) (wide : 1 ≤ h) (narrow : h ≤ 62) (only_user_mode : Bool) (blank : A) (state : S)
      (source : List (Entry A)) where
    abbrev pub all : List A
    all = kept_items skipped_cleanup skipping_done state false source

    abbrev pub opened : BufferedReader A S
    opened = new_buffered_reader (2 ^ suc h) only_user_mode blank state source

    abbrev View : BufferedReader A S → ℕ → Type ℓ
    View = Window skipped_cleanup skipping_done h all

    pub first_Filled :
        Done skipped_cleanup skipping_done leftover h all
          (λ t. t)
          0
          (2 ^ suc h)
          opened
          (read_first opened)
    unfolding new_buffered_reader
    first_Filled =
        init_loop-Filled skipped_cleanup skipping_done leftover h all source 0 false opened refl
          refl (refl, refl, refl, omega arith, refl, Holds-nothing (2 ^ suc h) false all opened.buf)
          (omega arith) (λ skipped. absurd cc)

    -- The reader that `begin()` leaves, where the trace shows an item.
    abbrev pub begun : BufferedReader A S
    begun = point_at_ends (read_first opened)

    module _
        (filled : Done skipped_cleanup skipping_done leftover h all
          (λ t. t)
          0
          (2 ^ suc h)
          opened
          (read_first opened)) where
      less_one : 0 < filled.count → previous filled.count ≡ filled.count - 1
      less_one some_read = omega (
        arith,
        some_read,
        filled.bounded,
        narrow_size skipped_cleanup skipping_done leftover h wide narrow all,
      )

      pub begun-Window : 0 < filled.count → View begun filled.count
      begun-Window some_read = record {
        reading = filled.reading;
        some_read = some_read;
        at_tail =
            ap previous filled.same_tail
            ∙ less_one some_read
            ∙ sym (mod-eq_of_lt (omega (arith, filled.bounded, some_read)));
        at_head = sym (
            ap (λ (t : ℕ). t % 2 ^ suc h) {y = 0} (omega (arith, filled.bounded))
            ∙ mod-eq_of_lt (two_pow_pos (suc h)));
        whole = λ more. (
          omega (arith, filled.filled more),
          ap (λ (t : ℕ). t % 2 ^ h) (filled.filled more ∙ two_pow_suc h) ∙ mul-mod_left 2 (2 ^ h),
        );
        exhausted = filled.exhausted;
        blanked = filled.blanked;
      }

      pub first_Here :
          0 < filled.count → At skipped_cleanup skipping_done h all begun filled.count 0
      first_Here some_read =
          (some_read, omega (arith, filled.bounded), λ end. omega (arith, filled.short end))

      first_index : 0 < filled.count → ((read_first opened).buf 0).index ≡ 1
      unfolding Holds
      first_index some_read =
          let (x, found) = get_elem?-length all 0 (omega (arith, some_read, filled.reading.3)) in
          ap (λ (t : ℕ). ((read_first opened).buf t).index)
            (sym (mod-eq_of_lt (two_pow_pos (suc h))))
          ∙ ap (λ (item : Item A). item.index)
              (filled.reading.5 0 x some_read (omega (arith, filled.bounded))
                (λ end. omega (arith, filled.short end)) found)

      pub first_live : 0 < filled.count → suc 0 ≡ filled.count → length all ≡ suc 0
      first_live some_read one = elim (Bool-cases (read_first opened).last_item_read) [
        | inl end ↦
            all_read skipped_cleanup skipping_done h all begun filled.count (begun-Window some_read)
              end
            ∙ sym one
        | inr more ↦ absurd (omega (arith, one, filled.filled more, two_pow_suc h, two_pow_pos h))
      ]

      nothing_shown : filled.count ≡ 0 → all ≡ []
      nothing_shown none_read =
          ap (λ (t : ℕ). drop t all) (sym none_read)
          ∙ filled.reading.4
          ∙ ap (kept_items skipped_cleanup skipping_done (read_first opened).state false)
              (filled.exhausted at_end)
          ∙ kept_items_end skipped_cleanup skipping_done (read_first opened).state false
        where
          at_end : (read_first opened).last_item_read ≡ true
          at_end = elim (Bool-cases (read_first opened).last_item_read) [
            | inl end ↦ end
            | inr more ↦ absurd (omega (arith, none_read, filled.filled more, two_pow_pos (suc h)))
          ]

    abbrev pub first_item : ℕ → Iterator × BufferedReader A S
    first_item index = (record { index = index; loc = 0; end = false }, begun)

    tail_nonzero : 0 < first_Filled.count → ((read_first opened).tail == 0) ≡ false
    tail_nonzero some_read = elim (Bool-cases ((read_first opened).tail == 0)) [
      | inr other ↦ other
      | inl same ↦ absurd (
          omega
            (arith, some_read, first_Filled.same_tail, (==_iff (read_first opened).tail 0).0 same))
    ]

    pub begin_first :
        0 < first_Filled.count → begin skipped_cleanup skipping_done leftover opened ≡ first_item 1
    begin_first some_read =
        begin_some opened (tail_nonzero some_read)
        ∙ ap first_item (first_index first_Filled some_read)

    pub begin_empty : first_Filled.count ≤ 0 → ((read_first opened).tail == 0) ≡ true
    begin_empty none_read =
        (==_iff (read_first opened).tail 0).1 (first_Filled.same_tail ∙ omega arith)

    -- What a user's loop sees.
    abbrev Sees : ℕ → Iterator × BufferedReader A S → Type ℓ
    Sees fuel b = visit skipped_cleanup skipping_done leftover fuel b.0 b.1 ≡ ok (numbered 0 all)

    some_Sees : 0 < first_Filled.count → Sees (suc (length all)) (first_item 1)
    some_Sees some_read =
        let enough = first_Filled.reading.3 in
        let from_first =
          visit_from skipped_cleanup skipping_done leftover h wide narrow all (length all - 1) begun
            first_Filled.count 0 (begun-Window first_Filled some_read)
            (first_Here first_Filled some_read) (first_live first_Filled some_read)
            (omega (arith, some_read, enough)) in
        subst
          (λ (t : ℕ).
            visit skipped_cleanup skipping_done leftover t
              (record { index = 1; loc = 0; end = false }) begun
            ≡ ok (numbered 0 all))
          {x = suc (suc (length all - 1))} (omega (arith, some_read, enough))
          (subst
            (λ (t : ℕ).
              visit skipped_cleanup skipping_done leftover (suc (suc (length all - 1)))
                (record { index = 1; loc = t; end = false }) begun
              ≡ ok (numbered 0 all))
            (mod-eq_of_lt (two_pow_pos (suc h))) from_first)

    none_Sees :
        all ≡ []
        → (index loc : ℕ) (r : BufferedReader A S)
        → Sees (suc (length all)) (record { index = index; loc = loc; end = true }, r)
    unfolding numbered
    none_Sees nothing index loc r =
        visit_end skipped_cleanup skipping_done leftover (length all) index loc r
        ∙ ap (λ (xs : List A). ok (numbered 0 xs)) (sym nothing)

    -- A reader with a buffer of 2 to the power h + 1 items, where 1 <= h <= 62, shows a loop
    -- from begin() to end() exactly the items that are not skipped, each once, in their order
    -- and numbered from 1, and the loop ends; an item after skipped ones is what the
    -- subclass's skippingDone_ makes of it. The bound on the rounds of the loop is one more
    -- than the number of items.
    pub visit-begin :
        visit skipped_cleanup skipping_done leftover
          (suc (length all))
          (begin skipped_cleanup skipping_done leftover opened).0
          (begin skipped_cleanup skipping_done leftover opened).1
        ≡ ok (numbered 0 all)
    visit-begin = elim (lt_or_ge 0 (first_Filled.count)) [
      | inl some_read ↦
          subst (Sees (suc (length all))) (sym (begin_first some_read)) (some_Sees some_read)
      | inr none_read ↦
          subst (Sees (suc (length all))) (sym (begin_none opened (begin_empty none_read)))
            (none_Sees (nothing_shown first_Filled (omega arith)) _ _ _)
    ]
