-- ===== src/BufferedReader/Init.antt =====
-- stf-inc/stf_buffered_reader.hpp: the loop of `initItemBuffer_`.
use stf_lib.Common.{ℕ, suc, ◌+◌, ◌%◌, ◌^◌, ◌≤◌, ◌<◌}
use stf_lib.Common.{Bool, true, false, lt_or_ge, inl, inr, lt→ltb, ge→ltb}
use stf_lib.Common.{List, [], ◌∷◌}
use stf_lib.Common.{◌≡◌, refl, arith}
use stf_lib.BufferedReader.{Entry, hidden, kept, BufferedReader}
use stf_lib.BufferedReader.{read_past_end, skip_item, keep_item, init_loop}
use native.Mathlib.Nat.{mod-eq_of_lt}
use stf_lib.BufferedReader.Filling.{Now, Done, Reading_skip, Reading_keep, stopped, ended, fewer}

module _ {ℓ} {A S : Type ℓ} (skipped_cleanup : A → S → S) (skipping_done : S → A → A × S)
    (leftover : A) (h : ℕ) (all : List A) where
  -- The loop of `initItemBuffer_`: the slot of the next item is `i`.
  abbrev start_on : ℕ → Bool → BufferedReader A S → List (Entry A) → BufferedReader A S
  start_on = init_loop skipped_cleanup skipping_done leftover

  module _ (c : ℕ) (did_skip : Bool) (r : BufferedReader A S)
      (sized : r.buffer_size ≡ 2 ^ suc h) where
    init_end :
        c < 2 ^ suc h
        → start_on c did_skip r []
          ≡ read_past_end skipped_cleanup skipping_done leftover r (c % 2 ^ suc h)
    unfolding init_loop
    init_end below = rw (sized, lt→ltb c (2 ^ suc h) below, mod-eq_of_lt below) refl

    init_hidden :
        (x : A) (entries : List (Entry A))
        → c < 2 ^ suc h
        → start_on c did_skip r (hidden x ∷ entries)
          ≡ start_on c true
              (skip_item skipped_cleanup skipping_done leftover r (c % 2 ^ suc h) x)
              entries
    unfolding init_loop
    init_hidden x entries below = rw (sized, lt→ltb c (2 ^ suc h) below, mod-eq_of_lt below) refl

    init_kept :
        (x : A) (entries : List (Entry A))
        → c < 2 ^ suc h
        → start_on c did_skip r (kept x ∷ entries)
          ≡ start_on
              (suc c)
              false
              (record (keep_item skipped_cleanup skipping_done leftover did_skip r
                (c % 2 ^ suc h)
                x) { tail = r.tail + 1 })
              entries
    unfolding init_loop
    init_kept x entries below =
        rw (sized, lt→ltb c (2 ^ suc h) below, mod-eq_of_lt below, one_more) refl
      where
        one_more : c + 1 ≡ suc c
        one_more = omega arith

    init_stop :
        (entries : List (Entry A))
        → c ≡ 2 ^ suc h
        → start_on c did_skip r entries ≡ record r { source = entries }
    unfolding init_loop
    init_stop [] full = rw (sized, ge→ltb c (2 ^ suc h) (omega arith)) refl
    init_stop (hidden x ∷ entries) full = rw (sized, ge→ltb c (2 ^ suc h) (omega arith)) refl
    init_stop (kept x ∷ entries) full = rw (sized, ge→ltb c (2 ^ suc h) (omega arith)) refl

  init_full :
      (entries : List (Entry A)) (c : ℕ) (did_skip : Bool) (r : BufferedReader A S)
      → r.tail ≡ c
      → r.last_item_read ≡ false
      → Now skipped_cleanup skipping_done leftover h all did_skip did_skip r entries c
      → c ≡ 2 ^ suc h
      → (did_skip ≡ true → c < 2 ^ suc h)
      → Done skipped_cleanup skipping_done leftover h all
          (λ t. t)
          c
          (2 ^ suc h)
          r
          (start_on c did_skip r entries)
  init_full entries c did_skip r at_tail more now full skipping =
      rw (init_stop c did_skip r now.0 entries full) (
        stopped skipped_cleanup skipping_done leftover h all did_skip (2 ^ suc h) r entries c more
          now full skipping (λ t. t) at_tail)

  pub init_loop-Filled :
      (entries : List (Entry A)) (c : ℕ) (did_skip : Bool) (r : BufferedReader A S)
      → r.tail ≡ c
      → r.last_item_read ≡ false
      → Now skipped_cleanup skipping_done leftover h all did_skip did_skip r entries c
      → c ≤ 2 ^ suc h
      → (did_skip ≡ true → c < 2 ^ suc h)
      → Done skipped_cleanup skipping_done leftover h all
          (λ t. t)
          c
          (2 ^ suc h)
          r
          (start_on c did_skip r entries)
  init_loop-Filled [] c did_skip r at_tail more now bounded skipping =
      elim (lt_or_ge c (2 ^ suc h)) [
        | inr full ↦ init_full [] c did_skip r at_tail more now (omega arith) skipping
        | inl below ↦ rw (init_end c did_skip r now.0 below) (
            (ended skipped_cleanup skipping_done leftover h all did_skip did_skip (2 ^ suc h) r c
              now below (λ t. t) at_tail).0)
      ]
  init_loop-Filled (hidden x ∷ entries) c did_skip r at_tail more now bounded skipping =
      elim (lt_or_ge c (2 ^ suc h)) [
        | inr full ↦
            init_full (hidden x ∷ entries) c did_skip r at_tail more now (omega arith) skipping
        | inl below ↦ rw (init_hidden c did_skip r now.0 x entries below) (
            fewer skipped_cleanup skipping_done leftover h all (omega arith) refl refl (
              init_loop-Filled entries c true
                (skip_item skipped_cleanup skipping_done leftover r (c % 2 ^ suc h) x) at_tail more
                (Reading_skip skipped_cleanup skipping_done leftover h all did_skip r x entries c
                  now)
                bounded (λ skipped. below)))
      ]
  init_loop-Filled (kept x ∷ entries) c did_skip r at_tail more now bounded skipping =
      elim (lt_or_ge c (2 ^ suc h)) [
        | inr full ↦
            init_full (kept x ∷ entries) c did_skip r at_tail more now (omega arith) skipping
        | inl below ↦ rw (init_kept c did_skip r now.0 x entries below) (
            fewer skipped_cleanup skipping_done leftover h all (omega arith) refl refl (
              init_loop-Filled entries (suc c) false
                (record (keep_item skipped_cleanup skipping_done leftover did_skip r (c % 2 ^ suc h)
                  x) { tail = r.tail + 1 })
                (omega (arith, at_tail)) more
                (Reading_keep skipped_cleanup skipping_done leftover h all did_skip r x entries c
                  now)
                below (λ skipped. absurd cc)))
      ]
