-- ===== src/BufferedReader/Rewind.antt =====
-- stf-inc/stf_buffered_reader.hpp: what copied iterators show.
use stf_lib.Common.{ℕ, suc, ◌+◌, ◌-◌, ◌%◌, ◌^◌, ◌≤◌, ◌<◌}
use stf_lib.Common.{Bool, true, false, lt_or_ge, inl, inr, ◌⊎◌}
use stf_lib.Common.{List, [], ◌∷◌, some, get_elem?, All, length, get_elem?-length}
use stf_lib.Common.{◌≡◌, refl, sym, ap, ◌∙◌, arith, ok}
use mathlib.Core.Path.{subst}
use stf_lib.Common.Bits.{two_pow_pos}
use stf_lib.BufferedReader.{Entry, BufferedReader, Iterator}
use stf_lib.BufferedReader.{current, increment, begin}
use stf_lib.Common.{lt→leb, leb, err, ◌+◌, ◌≤◌}
use stf_lib.BufferedReader.{validate_item_index, index_out_of_range, num_items_read_from_reader}
use stf_lib.BufferedReader.{get_item}
use stf_lib.BufferedReader.State.{oldest_shown}
use stf_lib.BufferedReader.Window.{shown, kept_items}
use native.Mathlib.Nat.{mod-eq_of_lt}
use stf_lib.BufferedReader.Filling.{Done}
use stf_lib.BufferedReader.State.{Window}
use stf_lib.BufferedReader.Ready.{get_item_lem}
use stf_lib.BufferedReader.Iterate.{at_item}
use stf_lib.BufferedReader.Begin.{
  opened, begin_first, begin_none, begin_empty, first_Filled, begun-Window, first_live, read_first,
}
use stf_lib.BufferedReader.Session.{
  Session, begins, increments, InWindow, All-get_elem?, ended_fails, increment_keeps,
}

module _ {ℓ} {A S : Type ℓ} (skipped_cleanup : A → S → S) (skipping_done : S → A → A × S)
    (leftover : A) (h : ℕ) (wide : 1 ≤ h) (narrow : h ≤ 62) (only_user_mode : Bool) (blank : A)
    (state : S) (source : List (Entry A)) where
  abbrev shown_items : List A
  shown_items = kept_items skipped_cleanup skipping_done state false source

  abbrev View : BufferedReader A S → ℕ → Type ℓ
  View = Window skipped_cleanup skipping_done h shown_items

  -- An iterator that is at an item that is read, or at the end.
  abbrev AtItem : ℕ → Iterator → Type 0
  AtItem c it =
      (k : ℕ) × (it ≡ at_item skipped_cleanup skipping_done leftover (suc k) (k % 2 ^ suc h))
      × (k < c)
      × (suc k ≡ c → length shown_items ≡ suc k)

  abbrev Good : ℕ → Iterator → Type 0
  Good c it = (it.end ≡ true) ⊎ AtItem c it

  abbrev Inv : BufferedReader A S → List Iterator → Type ℓ
  Inv r held = All (λ it. it.end ≡ true) held ⊎ ((c : ℕ) × View r c × All (Good c) held)

  abbrev start : BufferedReader A S
  start =
      opened skipped_cleanup skipping_done leftover h wide narrow only_user_mode blank state source

  abbrev Reaches : BufferedReader A S → List Iterator → Type ℓ
  Reaches = Session skipped_cleanup skipping_done leftover start

  abbrev inside_window :
      (r : BufferedReader A S) (c k : ℕ)
      → View r c
      → (it : Iterator)
      → it ≡ at_item skipped_cleanup skipping_done leftover (suc k) (k % 2 ^ suc h)
      → InWindow r it
      → (c ≤ k + 2 ^ suc h) × (r.last_item_read ≡ true → c < k + 2 ^ suc h)
  inside_window r c k window it at inside = (
    omega (arith, inside.0, window.reading.0, window.reading.2, ap (λ (t : Iterator). t.index) at),
    λ end. omega (
      arith,
      inside.1 end,
      window.reading.0,
      window.reading.2,
      ap (λ (t : Iterator). t.index) at,
    ),
  )

  abbrev first :
      Done skipped_cleanup skipping_done leftover h shown_items
        (λ t. t)
        0
        (2 ^ suc h)
        start
        (read_first skipped_cleanup skipping_done leftover start)
  first =
      first_Filled skipped_cleanup skipping_done leftover h wide narrow only_user_mode blank state
        source

  abbrev first_count : ℕ
  first_count = first.count

  begins_Inv :
      (b : Iterator × BufferedReader A S)
      → begin skipped_cleanup skipping_done leftover start ≡ b
      → Inv b.1 (b.0 ∷ [])
  begins_Inv b same = elim (lt_or_ge 0 first_count) [
    | inl some_read ↦
        subst (λ (t : Iterator × BufferedReader A S). Inv t.1 (t.0 ∷ []))
          (sym (
              begin_first skipped_cleanup skipping_done leftover h wide narrow only_user_mode blank
                state source some_read)
            ∙ same)
          (inr (
            first_count,
            begun-Window skipped_cleanup skipping_done leftover h wide narrow only_user_mode blank
                state source first some_read,
            (
              inr (
                0,
                ap (at_item skipped_cleanup skipping_done leftover 1)
                    (sym (mod-eq_of_lt (two_pow_pos (suc h)))),
                some_read,
                first_live skipped_cleanup skipping_done leftover h wide narrow only_user_mode blank
                    state source first some_read,
              ),
              tt,
            ),
          ))
    | inr none_read ↦
        subst (λ (t : Iterator × BufferedReader A S). Inv t.1 (t.0 ∷ []))
          (sym (
              begin_none skipped_cleanup skipping_done leftover start (
                begin_empty skipped_cleanup skipping_done leftover h wide narrow only_user_mode
                  blank state source none_read))
            ∙ same)
          (inl (refl, tt))
  ]

  session-Inv : {r : BufferedReader A S} {held : List Iterator} → Reaches r held → Inv r held
  session-Inv begins = begins_Inv _ refl
  session-Inv (increments {r = r} {r' = r'} {held = held} i it it' before found inside moved) =
      elim (session-Inv before) [
        | inl ended ↦ absurd (
            ended_fails skipped_cleanup skipping_done leftover h wide narrow only_user_mode blank
              state source it it' r r'
              (All-get_elem? (λ (t : Iterator). t.end ≡ true) held i ended found) moved)
        | inr (c, window, good) ↦ elim (All-get_elem? (Good c) held i good found) [
          | inl end ↦ absurd (
              ended_fails skipped_cleanup skipping_done leftover h wide narrow only_user_mode blank
                state source it it' r r' end moved)
          | inr (k, at, below, live) ↦ inr (
              increment_keeps skipped_cleanup skipping_done leftover h wide narrow only_user_mode
                blank state source r r' c k held it' window below live
                (inside_window r c k window it at inside) good
                (subst
                  (λ (t : Iterator).
                    increment skipped_cleanup skipping_done leftover t r ≡ ok (it', r'))
                  at moved))
        ]
      ]

  abbrev Shows : BufferedReader A S → Iterator → Type ℓ
  Shows r it =
      (x : A) × (get_elem? shown_items (it.index - 1) ≡ some x)
      × (current it r ≡ ok (some (shown (it.index - 1) x)))

  item_Shows :
      (r : BufferedReader A S) (c k : ℕ)
      → View r c
      → k < c
      → (c ≤ k + 2 ^ suc h) × (r.last_item_read ≡ true → c < k + 2 ^ suc h)
      → Shows r (at_item skipped_cleanup skipping_done leftover (suc k) (k % 2 ^ suc h))
  unfolding current
  item_Shows r c k window below inside =
      let (x, found) = get_elem?-length shown_items k (omega (arith, below, window.reading.3)) in
      let same : suc k - 1 ≡ k = omega arith in
      rw same (
        x,
        found,
        rw
            (get_item_lem skipped_cleanup skipping_done leftover h wide narrow shown_items r c k x
              window (below, inside.0, inside.1) found)
            refl,
      )

  -- However iterators on one reader, with a buffer of 2 to the power h + 1 items where 1 <= h
  -- <= 62, are copied and incremented, each increment made of one in the window, an iterator
  -- that is not at the end shows its own item as long as the window holds that item: it is
  -- among the last buffer_size items that were read, and is not the oldest of these once the
  -- end of the trace is met.
  pub current-session :
      {r : BufferedReader A S} {held : List Iterator} (i : ℕ) (it : Iterator)
      → Reaches r held
      → get_elem? held i ≡ some it
      → it.end ≡ false
      → InWindow r it
      → (x : A) × (get_elem? shown_items (it.index - 1) ≡ some x)
        × (current it r ≡ ok (some (shown (it.index - 1) x)))
  current-session {r = r} {held = held} i it reached found more inside =
      elim (session-Inv reached) [
        | inl ended ↦
            let end = All-get_elem? (λ (t : Iterator). t.end ≡ true) held i ended found in absurd cc
        | inr (c, window, good) ↦ elim (All-get_elem? (Good c) held i good found) [
          | inl end ↦ absurd cc
          | inr (k, at, below, live) ↦
              subst (Shows r) (sym at)
                (item_Shows r c k window below (inside_window r c k window it at inside))
        ]
      ]

  -- An iterator whose item has left the window is refused, until the trace ends.
  too_old :
      (r : BufferedReader A S) (c index : ℕ)
      → View r c
      → r.last_item_read ≡ false
      → index + r.buffer_size ≤ num_items_read_from_reader r
      → validate_item_index r index ≡ err index_out_of_range
  unfolding validate_item_index
  too_old r c index window more old =
      let oldest = oldest_shown skipped_cleanup skipping_done h shown_items r c window (inr more) in
      let below : leb (suc (c - 2 ^ suc h)) index ≡ false =
        lt→leb (suc (c - 2 ^ suc h)) index
          (omega (arith, old, window.reading.0, window.reading.2, two_pow_pos (suc h))) in
      rw (oldest, below) refl

  -- However iterators on one reader, with a buffer of 2 to the power h + 1 items where 1 <= h
  -- <= 62, are copied and incremented, each increment made of one in the window, an iterator
  -- that is not at the end is refused once its item is no longer among the last buffer_size
  -- items that were read, as long as the reader has not met the end of the trace.
  pub current_refused :
      {r : BufferedReader A S} {held : List Iterator} (i : ℕ) (it : Iterator)
      → Reaches r held
      → get_elem? held i ≡ some it
      → it.end ≡ false
      → r.last_item_read ≡ false
      → it.index + r.buffer_size ≤ num_items_read_from_reader r
      → current it r ≡ err index_out_of_range
  unfolding current get_item
  current_refused {r = r} {held = held} i it reached found live more old =
      elim (session-Inv reached) [
        | inl ended ↦
            let end = All-get_elem? (λ (t : Iterator). t.end ≡ true) held i ended found in absurd cc
        | inr (c, window, good) ↦ rw (too_old r c it.index window more old, live) refl
      ]
