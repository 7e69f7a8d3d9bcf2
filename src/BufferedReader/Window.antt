-- ===== src/BufferedReader/Window.antt =====
-- stf-inc/stf_buffered_reader.hpp: what stands in the window while items are read into it.
use stf_lib.Common.{ℕ, suc, ◌+◌, ◌%◌, ◌≤◌, ◌<◌}
use stf_lib.Common.{Bool, true, false, if◌then◌else◌, ==_self, lt_or_ge, inl, inr}
use stf_lib.Common.{List, [], ◌∷◌, some, get_elem?}
use stf_lib.Common.{◌≡◌, ◌≢◌, refl, ap, ◌∙◌, arith}
use stf_lib.BufferedReader.{Entry, hidden, kept, Item, set_item}
use stf_lib.BufferedReader.Slots.{other_slot}

module _ {ℓ} {A : Type ℓ} where
  -- Item `k` of the trace as the window holds it: the reader counts from 1.
  abbrev pub shown : ℕ → A → Item A
  shown k x = record { index = suc k; skipped = false; content = x }

  -- Of the first `c` items of the trace the window holds the last `size`, the oldest of which is
  -- gone if the slot after the newest is overwritten.
  unfoldable pub Holds : ℕ → Bool → List A → (ℕ → Item A) → ℕ → Type ℓ
  Holds size overwritten all buf c =
      (k : ℕ) (x : A)
      → k < c
      → c ≤ k + size
      → (overwritten ≡ true → c < k + size)
      → get_elem? all k ≡ some x
      → buf (k % size) ≡ shown k x

  pub set_item_same :
      (buf : ℕ → Item A) (pos : ℕ) (item : Item A) → set_item buf pos item pos ≡ item
  unfolding set_item
  set_item_same buf pos item = rw (==_self pos) refl

  set_item_other :
      (buf : ℕ → Item A) (pos : ℕ) (item : Item A) (other : ℕ)
      → other ≢ pos
      → set_item buf pos item other ≡ buf other
  unfolding set_item
  set_item_other buf pos item other apart = ground arith

  module _ (size : ℕ) (positive : 0 < size) where
    -- The next item is read.
    pub Holds-next :
        (overwritten : Bool) (all : List A) (buf : ℕ → Item A) (c : ℕ) (y : A)
        → Holds size overwritten all buf c
        → get_elem? all c ≡ some y
        → Holds size false all (set_item buf (c % size) (shown c y)) (suc c)
    unfolding Holds
    Holds-next overwritten all buf c y holds next k x below above strict found =
        elim (lt_or_ge k c) [
          | inl older ↦
              set_item_other buf (c % size) (shown c y) (k % size)
                (other_slot size positive k c older (omega arith))
              ∙ holds k x older (omega arith) (λ h. omega arith) found
          | inr newest ↦
              let same : k ≡ c = omega arith in
              let content : y ≡ x = cc in
              rw same (set_item_same buf (c % size) (shown c y) ∙ ap (shown c) content)
        ]

    -- Anything else is written to the slot of the next item.
    pub Holds-overwritten :
        (overwritten : Bool) (all : List A) (buf : ℕ → Item A) (c : ℕ) (item : Item A)
        → Holds size overwritten all buf c
        → Holds size true all (set_item buf (c % size) item) c
    unfolding Holds
    Holds-overwritten overwritten all buf c item holds k x below above strict found =
        set_item_other buf (c % size) item (k % size)
          (other_slot size positive k c below (strict refl))
        ∙ holds k x below above (λ h. strict refl) found

module _ {ℓ} {A S : Type ℓ} (skipped_cleanup : A → S → S) (skipping_done : S → A → A × S) where
  -- The items that a reader shows of a trace, from a state of the callbacks and `did_skip` on.
  unfoldable pub kept_items : S → Bool → List (Entry A) → List A
  kept_items state did_skip [] = []
  kept_items state did_skip (hidden x ∷ entries) = kept_items (skipped_cleanup x state) true entries
  kept_items state did_skip (kept x ∷ entries) =
      let finished : A × S = if did_skip then skipping_done state x else (x, state) in
      finished.0 ∷ kept_items finished.1 false entries

  pub kept_items_end : (state : S) (did_skip : Bool) → kept_items state did_skip [] ≡ []
  unfolding kept_items
  kept_items_end state did_skip = refl
