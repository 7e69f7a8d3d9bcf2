-- ===== src/BufferedReader/Move.antt =====
-- stf-inc/stf_buffered_reader.hpp: a round of `moveToNextItem_` on a window.
use stf_lib.Common.{ℕ, suc, ◌+◌, ◌-◌, ◌%◌, ◌^◌, ◌≤◌, ◌<◌, bit_and}
use stf_lib.Common.{true, false, ◌==◌, if◌then◌else◌, Bool-cases, lt_or_ge, inl, inr, ◌⊎◌}
use stf_lib.Common.{List, length, get_elem?-length}
use stf_lib.Common.{◌≡◌, refl, sym, ap, ◌∙◌, arith, Result, ok, ◌>>=◌, ==_iff}
use stf_lib.Common.Bits.{two_pow_pos}
use stf_lib.BufferedReader.{BufferedReader, BufferError, Moved}
use stf_lib.BufferedReader.{validate_item_index, reader_skip_callback, move_to_next_item}
use stf_lib.BufferedReader.Slots.{mask_slot, at_newest}
use stf_lib.BufferedReader.State.{Window, At, validate_item_index_ok}
use native.Mathlib.Nat.{mod-add-mod}
use stf_lib.BufferedReader.Ready.{Ready, get_item_lem, narrow_size, refilled_if_near, refill_Ready}

module _ {ℓ} {A S : Type ℓ} (skipped_cleanup : A → S → S) (skipping_done : S → A → A × S)
    (leftover : A) (h : ℕ) (wide : 1 ≤ h) (narrow : h ≤ 62) (all : List A) where
  abbrev View : BufferedReader A S → ℕ → Type ℓ
  View = Window skipped_cleanup skipping_done h all

  abbrev Here : BufferedReader A S → ℕ → ℕ → Type 0
  Here = At skipped_cleanup skipping_done h all

  -- A move in the window past item `k`: to the item after it, or to the end.
  pub record Next (r : BufferedReader A S) (c k : ℕ) : Type ℓ where
    pub reader : BufferedReader A S
    pub count : ℕ
    pub window : View reader count
    pub at : Here reader count (suc k)
    pub live : suc (suc k) ≡ count → length all ≡ suc (suc k)
    pub grows : c ≤ count
    pub moves :
        (fuel : ℕ)
        → move_to_next_item skipped_cleanup skipping_done leftover
            (suc fuel)
            r
            (suc k)
            (k % 2 ^ suc h)
          ≡ ok (true, suc (suc k), suc k % 2 ^ suc h, reader)

  pub record Last (r : BufferedReader A S) (c k : ℕ) : Type ℓ where
    pub reader : BufferedReader A S
    pub count : ℕ
    pub window : View reader count
    pub grows : c ≤ count
    pub at_end : length all ≡ suc k
    pub stays :
        (fuel : ℕ)
        → move_to_next_item skipped_cleanup skipping_done leftover
            (suc fuel)
            r
            (suc k)
            (k % 2 ^ suc h)
          ≡ ok (false, suc k, k % 2 ^ suc h, reader)

  read_to :
      (r : BufferedReader A S) (c : ℕ)
      → View r c
      → (n : ℕ) → View (record r { num_items_read = n }) c
  read_to r c window n = record {
    reading = window.reading;
    some_read = window.some_read;
    at_tail = window.at_tail;
    at_head = window.at_head;
    whole = window.whole;
    exhausted = window.exhausted;
    blanked = window.blanked;
  }

  -- The subclass keeps every item of the window.
  reader_skip_callback_lem :
      (r : BufferedReader A S) (c k : ℕ)
      → View r c
      → Here r c k
      → reader_skip_callback r (suc k) (k % 2 ^ suc h) ≡ ok (false, suc k)
  unfolding reader_skip_callback
  reader_skip_callback_lem r c k window at =
      let (x, found) = get_elem?-length all k (omega (arith, at.0, window.reading.3)) in
      elim (Bool-cases (r.only_user_mode)) [
        | inl user_mode ↦
            rw
              (
                get_item_lem skipped_cleanup skipping_done leftover h wide narrow all r c k x window
                    at found,
                user_mode,
              )
              refl
        | inr any_mode ↦ rw any_mode refl
      ]

  module _ (r : BufferedReader A S) (c k : ℕ) (window : View r c) (at : Here r c k)
      (live : suc k ≡ c → length all ≡ suc k) where
    validated : validate_item_index r (suc k) ≡ ok tt
    validated = validate_item_index_ok skipped_cleanup skipping_done h all r c window k at.0 at.1

    -- The code of a round after the refill.
    round_after : BufferedReader A S → ℕ → Result BufferError (Moved A S)
    round_after r' fuel =
        if k % 2 ^ suc h == r'.tail
        then ok (false, suc k, k % 2 ^ suc h, r')
        else (reader_skip_callback r' (suc k + 1) (bit_and (k % 2 ^ suc h + 1) r'.buffer_mask)
            >>= λ (skip_item, index').
                (if skip_item
                  then move_to_next_item skipped_cleanup skipping_done leftover fuel r' index'
                      (bit_and (k % 2 ^ suc h + 1) r'.buffer_mask)
                  else ok (
                    true,
                    index',
                    bit_and (k % 2 ^ suc h + 1) r'.buffer_mask,
                    record r' { num_items_read = index' },
                  )))

    round_lem :
        (fuel : ℕ)
        → move_to_next_item skipped_cleanup skipping_done leftover
            (suc fuel)
            r
            (suc k)
            (k % 2 ^ suc h)
          ≡ round_after
              (refilled_if_near skipped_cleanup skipping_done leftover h wide narrow all r c k
                window at live)
              fuel
    unfolding move_to_next_item round_after
    round_lem fuel = rw validated refl

    module _ (r' : BufferedReader A S)
        (ready : Ready skipped_cleanup skipping_done leftover h wide narrow all c k r')
        (fuel : ℕ) where
      not_newest : suc k < ready.count → (k % 2 ^ suc h == r'.tail) ≡ false
      not_newest inside = elim (Bool-cases (k % 2 ^ suc h == r'.tail)) [
        | inr other ↦ other
        | inl same ↦
            let slots : k % 2 ^ suc h ≡ (ready.count - 1) % 2 ^ suc h =
              (==_iff (k % 2 ^ suc h) r'.tail).0 same ∙ ready.window.at_tail in
            absurd (
              omega (
                arith,
                inside,
                at_newest (2 ^ suc h) (two_pow_pos (suc h))
                    (narrow_size skipped_cleanup skipping_done leftover h wide narrow all) k
                    ready.count ready.at.0 ready.at.1 slots,
              ))
      ]

      round_next :
          suc k < ready.count
          → round_after r' fuel
            ≡ ok (true, suc (suc k), suc k % 2 ^ suc h, record r' { num_items_read = suc (suc k) })
      unfolding round_after
      round_next inside =
          let inner : (k % 2 ^ suc h == r'.tail) ≡ false = not_newest inside in
          let slot : bit_and (k % 2 ^ suc h + 1) r'.buffer_mask ≡ suc k % 2 ^ suc h =
            rw (ready.window.reading.1) (
              mask_slot h (k % 2 ^ suc h + 1)
              ∙ mod-add-mod k (2 ^ suc h) 1
              ∙ ap (λ (t : ℕ). t % 2 ^ suc h) {y = suc k} (omega arith)) in
          let one_more : suc k + 1 ≡ suc (suc k) = omega arith in
          let here : Here r' ready.count (suc k) =
            (inside, omega (arith, ready.at.1), λ end. omega (arith, ready.at.1)) in
          rw
            (
              inner,
              slot,
              one_more,
              reader_skip_callback_lem r' ready.count (suc k) ready.window here,
            )
            refl

      round_last : suc k ≡ ready.count → round_after r' fuel ≡ ok (false, suc k, k % 2 ^ suc h, r')
      unfolding round_after
      round_last last =
          let newest : (k % 2 ^ suc h == r'.tail) ≡ true = (==_iff (k % 2 ^ suc h) r'.tail).1 (
            ap (λ (t : ℕ). t % 2 ^ suc h) {y = ready.count - 1} (omega (arith, last))
            ∙ sym ready.window.at_tail) in
          rw newest refl

    -- `moveToNextItem_`, in one round.
    pub move_to_next_item_lem : Next r c k ⊎ Last r c k
    move_to_next_item_lem =
        let r' : BufferedReader A S =
          refilled_if_near skipped_cleanup skipping_done leftover h wide narrow all r c k window at
            live in
        let ready : Ready skipped_cleanup skipping_done leftover h wide narrow all c k r' =
          refill_Ready skipped_cleanup skipping_done leftover h wide narrow all r c k window at
            live in
        elim (lt_or_ge (suc k) ready.count) [
          | inl inside ↦ inl (record {
            reader = record r' { num_items_read = suc (suc k) };
            count = ready.count;
            window = read_to r' ready.count ready.window (suc (suc k));
            at = (inside, omega (arith, ready.at.1), λ end. omega (arith, ready.at.1));
            live = ready.ended_next;
            grows = ready.grows;
            moves = λ fuel. round_lem fuel ∙ round_next r' ready fuel inside;
          })
          | inr last ↦
              let newest : suc k ≡ ready.count = omega (arith, ready.at.0) in
              inr (record {
                reader = r';
                count = ready.count;
                window = ready.window;
                grows = ready.grows;
                at_end = ready.ended_here newest;
                stays = λ fuel. round_lem fuel ∙ round_last r' ready fuel newest;
              })
        ]
