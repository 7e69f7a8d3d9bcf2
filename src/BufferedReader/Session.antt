-- ===== src/BufferedReader/Session.antt =====
-- stf-inc/stf_buffered_reader.hpp: several iterators on one reader. An iterator that is copied
-- before an increment stays in use ("rewinding is done by copying or assigning an existing
-- iterator"), and each increment may move the window under all of them.
use stf_lib.Common.{ℕ, zero, suc, ◌+◌, ◌%◌, ◌^◌, ◌≤◌, ◌<◌}
use stf_lib.Common.{Bool, true, false, inl, inr, ◌⊎◌, ◌≢◌}
use stf_lib.Common.{List, [], ◌∷◌, some, get_elem?, All, length}
use stf_lib.Common.{◌≡◌, refl, sym, ◌∙◌, arith, Result, ok, err}
use mathlib.Core.Path.{subst}
use stf_lib.BufferedReader.{Entry, BufferedReader, BufferError, increment_of_end, Iterator}
use stf_lib.BufferedReader.{increment, begin, num_items_read_from_reader}
use stf_lib.BufferedReader.Window.{kept_items}
use stf_lib.BufferedReader.State.{Window}
use stf_lib.BufferedReader.Move.{move_to_next_item_lem}
use stf_lib.BufferedReader.Iterate.{at_item, increment_lem, move_with}

-- The item is among the last `buffer_size` that were read, and not the oldest of these once the
-- reader has met the end of the trace.
abbrev pub InWindow {ℓ} : {A S : Type ℓ} → BufferedReader A S → Iterator → Type 0
InWindow r it =
    (num_items_read_from_reader r < it.index + r.buffer_size)
    × (r.last_item_read ≡ true → num_items_read_from_reader r + 1 < it.index + r.buffer_size)

-- What a user of the reader can do, and the iterators held then.
pub data Session {ℓ} {A S : Type ℓ} (skipped_cleanup : A → S → S) (skipping_done : S → A → A × S)
    (leftover : A) (start : BufferedReader A S) : BufferedReader A S → List Iterator → Type ℓ where
  begins :
      Session skipped_cleanup skipping_done leftover start
        (begin skipped_cleanup skipping_done leftover start).1
        ((begin skipped_cleanup skipping_done leftover start).0 ∷ [])
  increments :
      {r r' : BufferedReader A S} {held : List Iterator} (i : ℕ) (it it' : Iterator)
      → Session skipped_cleanup skipping_done leftover start r held
      → get_elem? held i ≡ some it
      → InWindow r it
      → increment skipped_cleanup skipping_done leftover it r ≡ ok (it', r')
      → Session skipped_cleanup skipping_done leftover start r' (it' ∷ held)

pub All-get_elem? {ℓ κ} :
    {A : Type ℓ} (P : A → Type κ) (xs : List A) (i : ℕ) {x : A}
    → All P xs
    → get_elem? xs i ≡ some x
    → P x
All-get_elem? P [] i h found = absurd cc
All-get_elem? P (y ∷ xs) zero {x = x} h found = let same : y ≡ x = cc in subst P same h.0
All-get_elem? P (y ∷ xs) (suc i) h found = All-get_elem? P xs i h.1 found

pub All-weaken {ℓ κ} :
    {A : Type ℓ} (P Q : A → Type κ) → ((x : A) → P x → Q x) → (xs : List A) → All P xs → All Q xs
All-weaken P Q f [] h = h
All-weaken P Q f (x ∷ xs) (p, rest) = (f x p, All-weaken P Q f xs rest)

module _ {ℓ} {A S : Type ℓ} (skipped_cleanup : A → S → S) (skipping_done : S → A → A × S)
    (leftover : A) (h : ℕ) (wide : 1 ≤ h) (narrow : h ≤ 62) (only_user_mode : Bool) (blank : A)
    (state : S) (source : List (Entry A)) where
  abbrev pub shown_items : List A
  shown_items = kept_items skipped_cleanup skipping_done state false source

  abbrev pub View : BufferedReader A S → ℕ → Type ℓ
  View = Window skipped_cleanup skipping_done h shown_items

  -- An iterator that is at an item that is read, or at the end.
  abbrev pub AtItem : ℕ → Iterator → Type 0
  AtItem c it =
      (k : ℕ) × (it ≡ at_item skipped_cleanup skipping_done leftover (suc k) (k % 2 ^ suc h))
      × (k < c)
      × (suc k ≡ c → length shown_items ≡ suc k)

  abbrev pub Good : ℕ → Iterator → Type 0
  Good c it = (it.end ≡ true) ⊎ AtItem c it

  abbrev pub Inv : BufferedReader A S → List Iterator → Type ℓ
  Inv r held = All (λ it. it.end ≡ true) held ⊎ ((c : ℕ) × View r c × All (Good c) held)

  Good-later : (c c' : ℕ) → c ≤ c' → (it : Iterator) → Good c it → Good c' it
  Good-later c c' grows it (inl end) = inl end
  Good-later c c' grows it (inr (k, at, below, live)) =
      inr (k, at, omega arith, λ newest. live (omega arith))

  -- Increments of one iterator.
  failed_moves : (e : BufferError) (b : Iterator × BufferedReader A S) → err e ≢ ok b
  failed_moves e b = λ same. absurd cc

  pub ended_fails :
      (it it' : Iterator) (r r' : BufferedReader A S)
      → it.end ≡ true
      → increment skipped_cleanup skipping_done leftover it r ≢ ok (it', r')
  unfolding increment
  ended_fails it it' r r' end = λ moved.
      let fails : increment skipped_cleanup skipping_done leftover it r ≡ err increment_of_end =
        rw end refl in
      failed_moves increment_of_end (it', r') (sym fails ∙ moved)

  abbrev Both : List Iterator → Iterator × BufferedReader A S → Type ℓ
  Both held b = (c' : ℕ) × View b.1 c' × All (Good c') (b.0 ∷ held)

  abbrev moved_to :
      Iterator × BufferedReader A S → Result BufferError (Iterator × BufferedReader A S)
  moved_to b = ok b

  step_to :
      (held : List Iterator) {b b' : Iterator × BufferedReader A S}
      → moved_to b ≡ moved_to b'
      → Both held b
      → Both held b'
  step_to held {b = b} {b' = b'} same kept_on =
      let pair : b ≡ b' = cc in subst (Both held) pair kept_on

  pub increment_keeps :
      (r r' : BufferedReader A S) (c k : ℕ) (held : List Iterator) (it' : Iterator)
      → View r c
      → k < c
      → (suc k ≡ c → length shown_items ≡ suc k)
      → (c ≤ k + 2 ^ suc h) × (r.last_item_read ≡ true → c < k + 2 ^ suc h)
      → All (Good c) held
      → increment skipped_cleanup skipping_done leftover
          (at_item skipped_cleanup skipping_done leftover (suc k) (k % 2 ^ suc h))
          r
        ≡ ok (it', r')
      → (c' : ℕ) × View r' c' × All (Good c') (it' ∷ held)
  increment_keeps r r' c k held it' window below live inside good moved =
      elim (move_to_next_item_lem skipped_cleanup skipping_done leftover h wide narrow shown_items r
        c k window (below, inside.0, inside.1) live) [
          | inl next ↦
              let moves =
                increment_lem skipped_cleanup skipping_done leftover (suc k) (k % 2 ^ suc h) r true
                  _ _ _
                  (move_with skipped_cleanup skipping_done leftover h wide narrow shown_items r c k
                    window next.moves) in
              step_to held (sym moves ∙ moved) (
                next.count,
                next.window,
                (
                  inr (suc k, refl, next.at.0, next.live),
                  All-weaken (Good c) (Good next.count) (Good-later c next.count next.grows) held
                      good,
                ),
              )
          | inr last ↦
              let moves =
                increment_lem skipped_cleanup skipping_done leftover (suc k) (k % 2 ^ suc h) r false
                  _ _ _
                  (move_with skipped_cleanup skipping_done leftover h wide narrow shown_items r c k
                    window last.stays) in
              step_to held (sym moves ∙ moved) (
                last.count,
                last.window,
                (
                  inl refl,
                  All-weaken (Good c) (Good last.count) (Good-later c last.count last.grows) held
                      good,
                ),
              )
        ]
