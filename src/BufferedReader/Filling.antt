-- ===== src/BufferedReader/Filling.antt =====
-- stf-inc/stf_buffered_reader.hpp: the loops of `initItemBuffer_` and `fillHalfBuffer_`.
use stf_lib.Common.{ℕ, suc, ◌+◌, ◌-◌, ◌%◌, ◌^◌, ◌≤◌, ◌<◌}
use stf_lib.Common.{Bool, true, false}
use stf_lib.Common.{List, [], ◌∷◌, drop, length, get_elem?-drop}
use stf_lib.Common.{◌≡◌, refl, ap, ◌∙◌, arith}
use stf_lib.Common.Bits.{two_pow_pos}
use stf_lib.BufferedReader.{Entry, hidden, kept, Item, BufferedReader}
use stf_lib.BufferedReader.{read_past_end, skip_item, keep_item}
use stf_lib.BufferedReader.Window.{Holds, Holds-next, set_item_same, Holds-overwritten, kept_items}

module _ {ℓ} {A S : Type ℓ} (skipped_cleanup : A → S → S) (skipping_done : S → A → A × S) (size : ℕ)
    (all : List A) where
  -- The reader has read the first `c` of the items `all`, and `entries` are left.
  abbrev pub Reading : Bool → Bool → BufferedReader A S → List (Entry A) → ℕ → Type ℓ
  Reading overwritten did_skip r entries c =
      (r.buffer_size ≡ size)
      × (r.buffer_mask ≡ size - 1)
      × (r.num_read ≡ c + r.num_skipped_items)
      × (c ≤ length all)
      × (drop c all ≡ kept_items skipped_cleanup skipping_done r.state did_skip entries)
      × Holds size overwritten all r.buf c

  -- What a loop that starts in `r` with `low` items read, and stops with `max`, leaves in `r'`.
  pub record Filled (tail : ℕ → ℕ) (low max : ℕ) (r r' : BufferedReader A S) : Type ℓ where
    pub count : ℕ
    pub reading : Reading r'.last_item_read false r' r'.source count
    pub grows : low ≤ count
    pub bounded : count ≤ max
    pub filled : r'.last_item_read ≡ false → count ≡ max
    pub short : r'.last_item_read ≡ true → count < max
    pub exhausted : r'.last_item_read ≡ true → r'.source ≡ []
    pub blanked : r'.last_item_read ≡ true → (r'.buf (count % size)).index ≡ 0
    pub same_tail : r'.tail ≡ tail count
    pub same_head : r'.head ≡ r.head
    pub same_mode : r'.only_user_mode ≡ r.only_user_mode

module _ {ℓ} {A S : Type ℓ} (skipped_cleanup : A → S → S) (skipping_done : S → A → A × S)
    (leftover : A) (h : ℕ) (all : List A) where
  abbrev pub Now : Bool → Bool → BufferedReader A S → List (Entry A) → ℕ → Type ℓ
  Now = Reading skipped_cleanup skipping_done (2 ^ suc h) all

  abbrev pub Done : (ℕ → ℕ) → ℕ → ℕ → BufferedReader A S → BufferedReader A S → Type ℓ
  Done = Filled skipped_cleanup skipping_done (2 ^ suc h) all

  -- The reads themselves, at the slot of the next item.
  pub Reading_skip :
      (did_skip : Bool) (r : BufferedReader A S) (x : A) (entries : List (Entry A)) (c : ℕ)
      → Now did_skip did_skip r (hidden x ∷ entries) c
      → Now true true
          (skip_item skipped_cleanup skipping_done leftover r (c % 2 ^ suc h) x)
          entries
          c
  unfolding kept_items
  Reading_skip did_skip r x entries c (sized, masked, counted, within, rest, holds) = (
    sized,
    masked,
    omega (arith, counted),
    within,
    rest,
    Holds-overwritten (2 ^ suc h) (two_pow_pos (suc h)) did_skip all r.buf c _ holds,
  )

  pub Reading_keep :
      (did_skip : Bool) (r : BufferedReader A S) (x : A) (entries : List (Entry A)) (c : ℕ)
      → Now did_skip did_skip r (kept x ∷ entries) c
      → Now false false
          (keep_item skipped_cleanup skipping_done leftover did_skip r (c % 2 ^ suc h) x)
          entries
          (suc c)
  unfolding kept_items
  Reading_keep did_skip r x entries c (sized, masked, counted, within, rest, holds) =
      let (found, rest', below) = get_elem?-drop c all rest in
      let position : r.num_read + 1 - r.num_skipped_items ≡ suc c = omega (arith, counted) in
      (
        sized,
        masked,
        omega (arith, counted),
        omega (arith, below),
        rest',
        rw position
            (Holds-next (2 ^ suc h) (two_pow_pos (suc h)) did_skip all r.buf c _ holds found),
      )

  -- Where the loops stop: with all items that were wanted, or at the end of the trace.
  pub stopped :
      (did_skip : Bool) (max : ℕ) (r : BufferedReader A S) (entries : List (Entry A)) (c : ℕ)
      → r.last_item_read ≡ false
      → Now did_skip did_skip r entries c
      → c ≡ max
      → (did_skip ≡ true → c < max)
      → (tail : ℕ → ℕ) → r.tail ≡ tail c
      → Done tail c max r (record r { source = entries })
  stopped true max r entries c more (sized, masked, counted, within, rest, holds) full skipping tail
        at_tail =
      absurd (omega (arith, full, skipping refl))
  stopped false max r entries c more (sized, masked, counted, within, rest, holds) full skipping
        tail at_tail =
      record {
        count = c;
        reading = (sized, masked, counted, within, rest, rw more holds);
        grows = omega arith;
        bounded = omega (arith, full);
        filled = λ end. full;
        short = λ end. absurd cc;
        exhausted = λ end. absurd cc;
        blanked = λ end. absurd cc;
        same_tail = at_tail;
        same_head = refl;
        same_mode = refl;
      }

  pub ended :
      (overwritten did_skip : Bool) (max : ℕ) (r : BufferedReader A S) (c : ℕ)
      → Now overwritten did_skip r [] c
      → c < max
      → (tail : ℕ → ℕ) → r.tail ≡ tail c
      → (filled : Done tail c max r
          (read_past_end skipped_cleanup skipping_done leftover r (c % 2 ^ suc h)))
        × (filled.count ≡ c)
  unfolding kept_items
  ended overwritten did_skip max r c (sized, masked, counted, within, rest, holds) below tail
        at_tail =
      (
        record {
          count = c;
          reading = (
            sized,
            masked,
            counted,
            within,
            rest,
            Holds-overwritten (2 ^ suc h) (two_pow_pos (suc h)) overwritten all r.buf c _ holds,
          );
          grows = omega arith;
          bounded = omega (arith, below);
          filled = λ end. absurd cc;
          short = λ end. below;
          exhausted = λ end. refl;
          blanked =
              λ end. ap (λ (item : Item A). item.index) (set_item_same r.buf (c % 2 ^ suc h) _);
          same_tail = at_tail;
          same_head = refl;
          same_mode = refl;
        },
        refl,
      )

  pub fewer :
      {tail : ℕ → ℕ} {low low' max : ℕ} {r r' r'' : BufferedReader A S}
      → low ≤ low'
      → r'.head ≡ r.head
      → r'.only_user_mode ≡ r.only_user_mode
      → Done tail low' max r' r''
      → Done tail low max r r''
  fewer {tail = tail} less head mode done = record {
    count = done.count;
    reading = done.reading;
    grows = omega (arith, less, done.grows);
    bounded = done.bounded;
    filled = done.filled;
    short = done.short;
    exhausted = done.exhausted;
    blanked = done.blanked;
    same_tail = done.same_tail;
    same_head = done.same_head ∙ head;
    same_mode = done.same_mode ∙ mode;
  }
