-- ===== src/BufferedReader/Refill.antt =====
-- stf-inc/stf_buffered_reader.hpp: `fillHalfBuffer_` on a window.
use stf_lib.Common.{ℕ, suc, ◌+◌, ◌-◌, ◌/◌, ◌%◌, ◌^◌, ◌≤◌, ◌<◌, bit_and}
use stf_lib.Common.{Bool, true, false, ◌==◌, Bool-cases, inl, inr}
use stf_lib.Common.{List, []}
use stf_lib.Common.{◌≡◌, refl, sym, ap, ◌∙◌, arith}
use stf_lib.Common.Bits.{two_pow_pos, two_pow_suc}
use mathlib.Core.Path.{subst}
use stf_lib.BufferedReader.{
  Entry, BufferedReader, adjust_head_and_tail, fill_half_buffer, num_items_read_from_reader,
  fill_loop,
}
use stf_lib.BufferedReader.Slots.{mask_slot}
use stf_lib.BufferedReader.Filling.{Reading, Done, ended}
use stf_lib.BufferedReader.Fill.{fill_loop-Filled, fill_end}
use stf_lib.BufferedReader.State.{Window}
use native.Mathlib.Nat.{mod-add-mod, add-mod_right}

-- The code after the loop, on the two counts.
adjust_cases {ℓ κ} :
    {A S : Type ℓ} (P : BufferedReader A S → Type κ) (n : ℕ) (r : BufferedReader A S)
    → (n ≡ 0 → P r)
    → (0 < n
        → P (record r {
          tail = bit_and (r.tail + n) r.buffer_mask;
          head = bit_and (r.head + n) r.buffer_mask;
        }))
    → P (adjust_head_and_tail n r)
unfolding adjust_head_and_tail
adjust_cases P n r none_read some_read = elim (Bool-cases (n == 0)) [
  | inl same ↦ rw same (none_read (ground arith))
  | inr other ↦ rw other (some_read (ground arith))
]

module _ {ℓ} {A S : Type ℓ} (skipped_cleanup : A → S → S) (skipping_done : S → A → A × S)
    (leftover : A) (h : ℕ) (narrow : h ≤ 62) (all : List A) where
  abbrev View : BufferedReader A S → ℕ → Type ℓ
  View = Window skipped_cleanup skipping_done h all

  -- The slots of the ends, moved on.
  tail_on :
      (c c' : ℕ)
      → 1 ≤ c
      → c ≤ c'
      → ((c - 1) % 2 ^ suc h + (c' - c)) % 2 ^ suc h ≡ (c' - 1) % 2 ^ suc h
  tail_on c c' some_read grows =
      mod-add-mod (c - 1) (2 ^ suc h) (c' - c)
      ∙ ap (λ (t : ℕ). t % 2 ^ suc h) {y = c' - 1} (omega arith)

  head_on :
      (c c' : ℕ)
      → 2 ^ suc h ≤ c
      → c ≤ c'
      → ((c - 2 ^ suc h) % 2 ^ suc h + (c' - c)) % 2 ^ suc h ≡ (c' - 2 ^ suc h) % 2 ^ suc h
  head_on c c' full grows =
      mod-add-mod (c - 2 ^ suc h) (2 ^ suc h) (c' - c)
      ∙ ap (λ (t : ℕ). t % 2 ^ suc h) {y = c' - 2 ^ suc h} (omega arith)

  -- What a refill of a window with `c` items read leaves in `r'`.
  pub record Refilled (r : BufferedReader A S) (c : ℕ) (r' : BufferedReader A S) : Type ℓ where
    pub count : ℕ
    pub window : View r' count
    pub grows : c ≤ count
    pub bounded : count ≤ c + 2 ^ h
    pub filled : r'.last_item_read ≡ false → count ≡ c + 2 ^ h
    pub short : r'.last_item_read ≡ true → count < c + 2 ^ h
    pub same_mode : r'.only_user_mode ≡ r.only_user_mode

  adjust-Refilled :
      (r : BufferedReader A S) (c : ℕ)
      → View r c
      → (r' : BufferedReader A S)
      → (filled : Done skipped_cleanup skipping_done leftover h all
          (λ t. r.tail)
          c
          (c + 2 ^ h)
          r
          r')
      → (c < filled.count → (2 ^ suc h ≤ c) × (c % 2 ^ h ≡ 0))
      → Refilled r c (adjust_head_and_tail (filled.count - c) r')
  adjust-Refilled r c window r' filled full =
      adjust_cases (Refilled r c) (filled.count - c) r'
        (λ none_read. record {
          count = filled.count;
          window = record {
            reading = filled.reading;
            some_read = omega (arith, window.some_read, filled.grows);
            at_tail =
                filled.same_tail
                ∙ window.at_tail
                ∙ ap (λ (t : ℕ). (t - 1) % 2 ^ suc h) (unchanged none_read);
            at_head =
                filled.same_head
                ∙ window.at_head
                ∙ ap (λ (t : ℕ). (t - 2 ^ suc h) % 2 ^ suc h) (unchanged none_read);
            whole = whole;
            exhausted = filled.exhausted;
            blanked = filled.blanked;
          };
          grows = filled.grows;
          bounded = filled.bounded;
          filled = filled.filled;
          short = filled.short;
          same_mode = filled.same_mode;
        })
        (λ some_read. record {
          count = filled.count;
          window = record {
            reading = filled.reading;
            some_read = omega (arith, window.some_read, filled.grows);
            at_tail =
                rw (filled.reading.1, filled.same_tail, window.at_tail)
                  (mask_slot h _ ∙ tail_on c filled.count window.some_read filled.grows);
            at_head =
                rw (filled.reading.1, filled.same_head, window.at_head)
                  (mask_slot h _
                    ∙ head_on c filled.count (full (omega (arith, some_read))).0 filled.grows);
            whole = whole;
            exhausted = filled.exhausted;
            blanked = filled.blanked;
          };
          grows = filled.grows;
          bounded = filled.bounded;
          filled = filled.filled;
          short = filled.short;
          same_mode = filled.same_mode;
        })
    where
      unchanged : filled.count - c ≡ 0 → c ≡ filled.count
      unchanged none_read = omega (arith, none_read, filled.grows)

      whole : r'.last_item_read ≡ false → (2 ^ suc h ≤ filled.count) × (filled.count % 2 ^ h ≡ 0)
      whole more =
          let enough = filled.filled more in
          let (full_before, halves) = full (omega (arith, enough, two_pow_pos h)) in
          (
            omega (arith, full_before, filled.grows),
            ap (λ (t : ℕ). t % 2 ^ h) enough ∙ add-mod_right c (2 ^ h) ∙ halves,
          )

  -- The loop in `fillHalfBuffer_`.
  abbrev filled_by : BufferedReader A S → ℕ → BufferedReader A S
  filled_by r c =
      fill_loop skipped_cleanup skipping_done leftover (c + 2 ^ h) r.tail false r r.source

  abbrev LoopFills : BufferedReader A S → ℕ → BufferedReader A S → Type ℓ
  LoopFills r c r' =
      (filled : Done skipped_cleanup skipping_done leftover h all (λ t. r.tail) c (c + 2 ^ h) r r')
      × (c < filled.count → (2 ^ suc h ≤ c) × (c % 2 ^ h ≡ 0))

  module _ (r : BufferedReader A S) (c : ℕ) (window : View r c) where
    before_next : (r.tail + 1) % 2 ^ suc h ≡ c % 2 ^ suc h
    before_next = rw (window.at_tail) (
        mod-add-mod (c - 1) (2 ^ suc h) 1
        ∙ ap (λ (t : ℕ). t % 2 ^ suc h) {y = c} (omega (arith, window.some_read)))

    -- At the end of the trace the loop only meets the end again.
    loop_empty :
        r.last_item_read ≡ true
        → LoopFills r c
            (fill_loop skipped_cleanup skipping_done leftover (c + 2 ^ h) r.tail false r [])
    loop_empty end =
        let (filled, none_read) =
          ended skipped_cleanup skipping_done leftover h all r.last_item_read false (c + 2 ^ h) r c
            (subst
              (λ (left : List (Entry A)).
                Reading skipped_cleanup skipping_done (2 ^ suc h) all r.last_item_read false r left
                  c)
              (window.exhausted end) window.reading)
            (omega (arith, two_pow_pos h)) (λ t. r.tail) refl in
        rw
          (fill_end skipped_cleanup skipping_done leftover h narrow all (c + 2 ^ h) r.tail false r c
            before_next window.reading.1 window.reading.2 (omega (arith, two_pow_pos h)))
          (filled, λ more. absurd (omega (arith, more, none_read)))

    loop_at_end : r.last_item_read ≡ true → LoopFills r c (filled_by r c)
    loop_at_end end =
        subst
          (λ (left : List (Entry A)).
            LoopFills r c
              (fill_loop skipped_cleanup skipping_done leftover (c + 2 ^ h) r.tail false r left))
          (sym (window.exhausted end)) (loop_empty end)

    loop_before_end : r.last_item_read ≡ false → LoopFills r c (filled_by r c)
    loop_before_end more = (
      fill_loop-Filled skipped_cleanup skipping_done leftover h narrow all (c + 2 ^ h) r.source
          r.tail false r c before_next more
          (subst
            (λ (overwritten : Bool).
              Reading skipped_cleanup skipping_done (2 ^ suc h) all overwritten false r r.source c)
            more window.reading)
          (omega arith) (λ skipped. absurd cc),
      λ some_read. window.whole more,
    )

    half_buffer : num_items_read_from_reader r + r.buffer_size / 2 ≡ c + 2 ^ h
    half_buffer = rw (window.reading.0) (omega (arith, window.reading.2, two_pow_suc h))

    -- The whole of `fillHalfBuffer_`.
    pub fill_half_buffer-Refilled :
        Refilled r c (fill_half_buffer skipped_cleanup skipping_done leftover r)
    unfolding fill_half_buffer
    fill_half_buffer-Refilled =
        let loop : LoopFills r c (filled_by r c) = elim (Bool-cases (r.last_item_read)) [
          | inl end ↦ loop_at_end end
          | inr more ↦ loop_before_end more
        ] in
        let read_before : num_items_read_from_reader r ≡ c = omega (arith, window.reading.2) in
        let read_after : num_items_read_from_reader (filled_by r c) ≡ loop.0.count =
          omega (arith, loop.0.reading.2) in
        rw (half_buffer, read_before, read_after)
          (adjust-Refilled r c window (filled_by r c) loop.0 loop.1)
