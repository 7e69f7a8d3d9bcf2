-- ===== src/Descriptor/Order.antt =====
-- The sorted sequence of the internal descriptors in stf-inc/stf_descriptor.hpp, and its reverse
-- mapping.
use stf_lib.Common.{ℕ, suc, ◌≡◌, refl, some, List, [], ◌∷◌, get_elem?}
use stf_lib.Common.{if◌then◌else◌}
use stf_lib.Descriptor.{Descriptor, internal, encoded_compare, descriptors}
use stf_lib.Descriptor.{sorted_internal_sequence, sorted_sequence_position}

-- How many of the listed descriptors come before `d` in the encoded order.
unfoldable pub count_before : Descriptor → List Descriptor → ℕ
count_before d [] = 0
count_before d (e ∷ es) =
    let rest = count_before d es in if encoded_compare e d then suc rest else rest

abbrev pub rank : Descriptor → ℕ
rank d = count_before d descriptors

-- The sorted sequence has every descriptor at its rank in the encoded order, and the reverse
-- mapping gives that rank.
pub sorted_sequence_lem :
    (d : Descriptor)
    → (sorted_sequence_position (internal d) ≡ rank d)
      × (get_elem? sorted_internal_sequence (rank d) ≡ some (internal d))
unfolding sorted_sequence_position count_before encoded_compare
sorted_sequence_lem Descriptor.reserved = (refl, refl)
sorted_sequence_lem _ = (refl, refl)
