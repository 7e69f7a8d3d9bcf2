-- ===== src/Stream/Writes.antt =====
-- What the operators `<<` of stf-inc/stf_ofstream.hpp and stf-inc/stf_serializable_container.hpp
-- write. An integer is its memory on a little-endian machine.
use stf_lib.Common.{ℕ, zero, suc, ◌/◌, ◌%◌, List, [], ◌∷◌, ◌++◌, length}

-- An integer of so many bytes.
unfoldable pub write_uint : ℕ → ℕ → List ℕ
write_uint zero v = []
write_uint (suc w) v = v % 256 ∷ write_uint w (v / 256)

-- The elements of a container, one after the other.
unfoldable pub write_elements {ℓ} : {A : Type ℓ} → (A → List ℕ) → List A → List ℕ
write_elements write [] = []
write_elements write (x ∷ xs) = write x ++ write_elements write xs

-- `SerializableContainer::pack`: the number of the elements is cast to the type of the size.
unfoldable pub write_container {ℓ} : {A : Type ℓ} → ℕ → (A → List ℕ) → List A → List ℕ
unfolding write_elements
write_container size_bytes write xs = write_uint size_bytes (length xs) ++ write_elements write xs
