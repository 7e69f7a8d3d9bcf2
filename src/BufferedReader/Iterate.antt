-- ===== src/BufferedReader/Iterate.antt =====
-- stf-inc/stf_buffered_reader.hpp: a loop of the reader's user from `begin()` to `end()`.
use stf_lib.Common.{ℕ, zero, suc, ◌+◌, ◌-◌, ◌%◌, ◌^◌, ◌≤◌}
use stf_lib.Common.{Bool, true, false, not, if◌then◌else◌, inl, inr}
use stf_lib.Common.{
  List, [], ◌∷◌, ◌++◌, Option, none, some, get_elem?, drop, length, get_elem?-length,
}
use stf_lib.Common.{◌≡◌, refl, ap, ◌∙◌, arith, Result, ok, err, ◌>>=◌}
use stf_lib.Common.Bits.{two_pow_pos}
use stf_lib.BufferedReader.{Item, BufferedReader, Moved, BufferError, out_of_rounds, Iterator}
use stf_lib.BufferedReader.{get_item, current, increment, move_to_next_item}
use stf_lib.BufferedReader.Window.{shown}
use stf_lib.BufferedReader.State.{Window, At}
use stf_lib.BufferedReader.Ready.{get_item_lem}
use stf_lib.BufferedReader.Move.{move_to_next_item_lem}

module _ {ℓ} {A : Type ℓ} where
  abbrev pub seen : Option (Item A) → List (Item A)
  seen none = []
  seen (some item) = item ∷ []

  -- The items of a trace as the reader numbers them, from the item after `k` on.
  unfoldable pub numbered : ℕ → List A → List (Item A)
  numbered k [] = []
  numbered k (x ∷ xs) = shown k x ∷ numbered (suc k) xs

  pub drop_next :
      (xs : List A) (k : ℕ) (x : A) → get_elem? xs k ≡ some x → drop k xs ≡ x ∷ drop (suc k) xs
  drop_next [] k x h = absurd cc
  drop_next (y ∷ xs) zero x h = cc
  drop_next (y ∷ xs) (suc k) x h = drop_next xs k x h

  pub drop_all : (xs : List A) (k : ℕ) → length xs ≡ k → drop k xs ≡ []
  drop_all [] zero h = refl
  drop_all [] (suc k) h = refl
  drop_all (x ∷ xs) zero h = absurd (omega (arith, h))
  drop_all (x ∷ xs) (suc k) h = drop_all xs k (omega (arith, h))

module _ {ℓ} {A S : Type ℓ} (skipped_cleanup : A → S → S) (skipping_done : S → A → A × S)
    (leftover : A) where
  -- `for (; it != reader.end(); ++it)` with the items `*it`; `out_of_rounds` where `fuel` does not
  -- do.
  unfoldable pub visit : ℕ → Iterator → BufferedReader A S → Result BufferError (List (Item A))
  visit zero it r = err out_of_rounds
  visit (suc fuel) it r =
      if it.end
      then ok []
      else (current it r >>= λ item.
          increment skipped_cleanup skipping_done leftover it r >>= λ (it', r').
          visit fuel it' r' >>= λ rest. ok (seen item ++ rest))

  -- The rounds of `visit`.
  abbrev pub at_item : ℕ → ℕ → Iterator
  at_item index loc = record { index = index; loc = loc; end = false }

  pub visit_end :
      (fuel index loc : ℕ) (r : BufferedReader A S)
      → visit (suc fuel) (record { index = index; loc = loc; end = true }) r ≡ ok []
  unfolding visit
  visit_end fuel index loc r = refl

  visit_step :
      (fuel index loc : ℕ) (r : BufferedReader A S) (item : Item A) (it' : Iterator)
      (r' : BufferedReader A S) (rest : List (Item A))
      → get_item r index loc ≡ ok item
      → increment skipped_cleanup skipping_done leftover (at_item index loc) r ≡ ok (it', r')
      → visit fuel it' r' ≡ ok rest
      → visit (suc fuel) (at_item index loc) r ≡ ok (item ∷ rest)
  unfolding visit current
  visit_step fuel index loc r item it' r' rest got moved visited = rw (got, moved, visited) refl

  pub increment_lem :
      (index loc : ℕ) (r : BufferedReader A S) (found : Bool) (index' loc' : ℕ)
      (r' : BufferedReader A S)
      → move_to_next_item skipped_cleanup skipping_done leftover r.buffer_size r index loc
        ≡ ok (found, index', loc', r')
      → increment skipped_cleanup skipping_done leftover (at_item index loc) r
        ≡ ok (record { index = index'; loc = loc'; end = not found }, r')
  unfolding increment
  increment_lem index loc r found index' loc' r' moved = rw moved refl

  module _ (h : ℕ) (wide : 1 ≤ h) (narrow : h ≤ 62) (all : List A) where
    abbrev View : BufferedReader A S → ℕ → Type ℓ
    View = Window skipped_cleanup skipping_done h all

    abbrev Here : BufferedReader A S → ℕ → ℕ → Type 0
    Here = At skipped_cleanup skipping_done h all

    enough_rounds :
        (r : BufferedReader A S) (c : ℕ) → View r c → r.buffer_size ≡ suc (2 ^ suc h - 1)
    enough_rounds r c window = window.reading.0 ∙ omega (arith, two_pow_pos (suc h))

    pub move_with :
        (r : BufferedReader A S) (c k : ℕ)
        → View r c
        → {moved : Result BufferError (Moved A S)}
        → ((fuel : ℕ)
            → move_to_next_item skipped_cleanup skipping_done leftover
                (suc fuel)
                r
                (suc k)
                (k % 2 ^ suc h)
              ≡ moved)
        → move_to_next_item skipped_cleanup skipping_done leftover r.buffer_size r
            (suc k)
            (k % 2 ^ suc h)
          ≡ moved
    move_with r c k window moves =
        ap
          (λ (t : ℕ).
            move_to_next_item skipped_cleanup skipping_done leftover t r (suc k) (k % 2 ^ suc h))
          (enough_rounds r c window)
        ∙ moves (2 ^ suc h - 1)

    pub visit_from :
        (m : ℕ) (r : BufferedReader A S) (c k : ℕ)
        → View r c
        → Here r c k
        → (suc k ≡ c → length all ≡ suc k)
        → k + suc m ≡ length all
        → visit (suc (suc m)) (at_item (suc k) (k % 2 ^ suc h)) r ≡ ok (numbered k (drop k all))
    unfolding numbered
    visit_from zero r c k window at live left =
        let (x, found) = get_elem?-length all k (omega (arith, left)) in
        let got =
          get_item_lem skipped_cleanup skipping_done leftover h wide narrow all r c k x window at
            found in
        elim (move_to_next_item_lem skipped_cleanup skipping_done leftover h wide narrow all r c k
          window at live) [
            | inl next ↦ absurd (omega (arith, left, next.at.0, next.window.reading.3))
            | inr last ↦
                rw (drop_next all k x found, drop_all all (suc k) last.at_end)
                  (visit_step 1 (suc k) (k % 2 ^ suc h) r (shown k x) _ _ [] got
                    (increment_lem (suc k) (k % 2 ^ suc h) r false _ _ _
                      (move_with r c k window last.stays))
                    (visit_end 0 (suc k) (k % 2 ^ suc h) last.reader))
          ]
    visit_from (suc m) r c k window at live left =
        let (x, found) = get_elem?-length all k (omega (arith, left)) in
        let got =
          get_item_lem skipped_cleanup skipping_done leftover h wide narrow all r c k x window at
            found in
        elim (move_to_next_item_lem skipped_cleanup skipping_done leftover h wide narrow all r c k
          window at live) [
            | inl next ↦ rw (drop_next all k x found) (
                visit_step (suc (suc m)) (suc k) (k % 2 ^ suc h) r (shown k x) _ _ _ got
                  (increment_lem (suc k) (k % 2 ^ suc h) r true _ _ _
                    (move_with r c k window next.moves))
                  (visit_from m next.reader next.count (suc k) next.window next.at next.live
                    (omega (arith, left))))
            | inr last ↦ absurd (omega (arith, left, last.at_end))
          ]
