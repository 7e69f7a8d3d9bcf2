-- ===== src/Tests/Buffer.antt =====
-- A buffer of four items on a trace of seven, two of which are skipped, for
-- stf-inc/stf_buffered_reader.hpp.
use stf_lib.Common.{
  ℕ, ◌+◌, ◌*◌, ◌-◌, get_elem?, true, false, ◌≡◌, refl, arith, [], ◌∷◌, List, some, ok, err,
}
use stf_lib.BufferedReader.{
  Entry, hidden, kept, Iterator, BufferedReader, new_buffered_reader, begin, increment, current,
}
use stf_lib.BufferedReader.{
  init_item_buffer, init_loop, fill_loop, fill_half_buffer, adjust_head_and_tail, move_to_next_item,
  validate_item_index, set_item, reader_skip_callback, get_item,
}
use stf_lib.BufferedReader.{index_out_of_range}
use stf_lib.BufferedReader.Window.{kept_items, shown}
use stf_lib.BufferedReader.Iterate.{visit, numbered}
use stf_lib.BufferedReader.Begin.{visit-begin}
use stf_lib.BufferedReader.Session.{Session, begins, increments}
use stf_lib.BufferedReader.Rewind.{current-session, current_refused}

abbrev count_skipped : ℕ → ℕ → ℕ
count_skipped x state = state + 1

-- The first item after skipped ones gets what the skipped ones left.
abbrev apply_skipped : ℕ → ℕ → ℕ × ℕ
apply_skipped state x = (x + 100 * state, 0)

abbrev small_trace : List (Entry ℕ)
small_trace =
    kept 10 ∷ hidden 11 ∷ hidden 12 ∷ kept 13 ∷ kept 14 ∷ kept 15 ∷ kept 16 ∷ kept 17 ∷ kept 18 ∷ []

abbrev small_reader : BufferedReader ℕ ℕ
small_reader = new_buffered_reader 4 true 0 0 small_trace

visit-begin_example :
    visit count_skipped apply_skipped 0 8
      (begin count_skipped apply_skipped 0 small_reader).0
      (begin count_skipped apply_skipped 0 small_reader).1
    ≡ ok (
        shown 0 10
        ∷ shown 1 213
        ∷ shown 2 14
        ∷ shown 3 15
        ∷ shown 4 16
        ∷ shown 5 17
        ∷ shown 6 18
        ∷ [])
unfolding kept_items numbered
visit-begin_example =
    visit-begin count_skipped apply_skipped 0 1 (omega arith) (omega arith) true 0 0 small_trace

abbrev At : Type 0
At = Iterator × BufferedReader ℕ ℕ

abbrev advanced : At → At
advanced b = elim (increment count_skipped apply_skipped 0 b.0 b.1) [ ok b' ↦ b' | err e ↦ b ]

abbrev at_first : At
at_first = begin count_skipped apply_skipped 0 small_reader

abbrev at_second : At
at_second = advanced at_first

abbrev at_third : At
at_third = advanced at_second

two_steps :
    Session count_skipped apply_skipped 0 small_reader at_third.1
      (at_third.0 ∷ at_second.0 ∷ at_first.0 ∷ [])
unfolding increment begin new_buffered_reader current init_item_buffer init_loop move_to_next_item
    validate_item_index set_item reader_skip_callback get_item
two_steps =
    increments 0 at_second.0 at_third.0
      (increments 0 at_first.0 at_second.0 begins refl (omega arith, λ end. absurd cc) refl) refl
      (omega arith, λ end. absurd cc) refl

-- The second iterator, kept while a copy of it moves on.
current-session_example :
    (x : ℕ) × (get_elem?
        (kept_items count_skipped apply_skipped 0 false small_trace)
        (at_second.0.index - 1)
      ≡ some x)
    × (current at_second.0 at_third.1 ≡ ok (some (shown (at_second.0.index - 1) x)))
unfolding increment begin new_buffered_reader init_item_buffer init_loop move_to_next_item
    validate_item_index set_item reader_skip_callback get_item kept_items
current-session_example =
    current-session count_skipped apply_skipped 0 1 (omega arith) (omega arith) true 0 0 small_trace
      {r = at_third.1} {held = at_third.0 ∷ at_second.0 ∷ at_first.0 ∷ []} 1 at_second.0 two_steps
      refl refl (omega arith, λ end. absurd cc)

-- A buffer of two items: the loop ends after the first of five items.
two_item_buffer_run :
    visit count_skipped apply_skipped 0 9
      (begin count_skipped apply_skipped 0
        (new_buffered_reader 2 false 0 0 (kept 1 ∷ kept 2 ∷ kept 3 ∷ kept 4 ∷ kept 5 ∷ []))).0
      (begin count_skipped apply_skipped 0
        (new_buffered_reader 2 false 0 0 (kept 1 ∷ kept 2 ∷ kept 3 ∷ kept 4 ∷ kept 5 ∷ []))).1
    ≡ ok (shown 0 1 ∷ [])
unfolding visit increment begin new_buffered_reader current init_item_buffer init_loop
    move_to_next_item validate_item_index set_item reader_skip_callback get_item fill_loop
    fill_half_buffer adjust_head_and_tail
two_item_buffer_run = refl

-- Four items in a buffer of four: at the end of the trace the first iterator is still valid, and
-- what it shows is a reset item.
abbrev four_items : BufferedReader ℕ ℕ
four_items = new_buffered_reader 4 false 0 0 (kept 1 ∷ kept 2 ∷ kept 3 ∷ kept 4 ∷ [])

abbrev first_of_four : At
first_of_four = begin count_skipped apply_skipped 0 four_items

reset_item_run :
    current first_of_four.0 (advanced (advanced (advanced first_of_four))).1
    ≡ ok (some (record { index = 0; skipped = false; content = 0 }))
unfolding increment begin new_buffered_reader current init_item_buffer init_loop move_to_next_item
    validate_item_index set_item reader_skip_callback get_item fill_loop fill_half_buffer
    adjust_head_and_tail
reset_item_run = refl

abbrev at_fourth : At
at_fourth = advanced at_third

three_steps :
    Session count_skipped apply_skipped 0 small_reader at_fourth.1
      (at_fourth.0 ∷ at_third.0 ∷ at_second.0 ∷ at_first.0 ∷ [])
unfolding increment begin new_buffered_reader current init_item_buffer init_loop move_to_next_item
    validate_item_index set_item reader_skip_callback get_item fill_loop fill_half_buffer
    adjust_head_and_tail
three_steps =
    increments 0 at_third.0 at_fourth.0 two_steps refl (omega arith, λ end. absurd cc) refl

-- The first iterator, whose item is no longer among the four.
current_refused_example : current at_first.0 at_fourth.1 ≡ err index_out_of_range
unfolding increment begin new_buffered_reader init_item_buffer init_loop move_to_next_item
    validate_item_index set_item reader_skip_callback get_item fill_loop fill_half_buffer
    adjust_head_and_tail
current_refused_example =
    current_refused count_skipped apply_skipped 0 1 (omega arith) (omega arith) true 0 0 small_trace
      {r = at_fourth.1} {held = at_fourth.0 ∷ at_third.0 ∷ at_second.0 ∷ at_first.0 ∷ []} 3
      at_first.0 three_steps refl refl refl (omega arith)
