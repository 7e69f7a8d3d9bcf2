-- ===== src/Tests/Data.antt =====
-- Fields of words, register numbers, descriptors and versions: stf-inc/util.hpp,
-- stf-inc/stf_reg_def.hpp, stf-inc/stf_descriptor.hpp and stf-inc/stf.hpp.
use stf_lib.Common.{◌≡◌, ◌-◌, ◌^◌, refl, arith, true, [], ◌∷◌, some, get_elem?}
use stf_lib.ByteUtils.{bit_mask, extract, bit, bit_range}
use stf_lib.ByteUtils.Fields.{bit_mask_lem, extract_lem}
use stf_lib.Registers.{pack_reg_num, pack_reg_metadata, decode}
use stf_lib.Registers.Codec.{decode-pack}
use stf_lib.Descriptor.{
  Descriptor, encoded, encoded_compare, internal, to_internal, to_encoded, sorted_sequence_position,
  sorted_internal_sequence,
}
use stf_lib.Descriptor.Conversion.{to_encoded-to_internal}
use stf_lib.Descriptor.Order.{sorted_sequence_lem, count_before}
use stf_lib.Version.{check_version, check_version_lem}

bit_mask_lem_example : bit_mask 64 64 ≡ 2 ^ 64 - 1
bit_mask_lem_example = bit_mask_lem 64 64 (omega arith) (omega arith)

extract_lem_example : extract 16 (bit 12 5 ∷ bit_range 6 2 4 ∷ []) 0x107c ≡ 0x3f
extract_lem_example =
    extract_lem 16 (bit 12 5 ∷ bit_range 6 2 4 ∷ []) 0x107c (omega arith) (omega arith)

-- CSR 0x300 as a destination.
decode-pack_example : decode (pack_reg_num 0x40300) (pack_reg_metadata 0x40300 3) ≡ (0x40300, 3)
decode-pack_example = decode-pack 0x40300 3 (omega arith) (omega arith)

to_encoded-to_internal_example : to_encoded 4 ≡ some 60
unfolding to_internal encoded
to_encoded-to_internal_example = to_encoded-to_internal 60 4 refl (omega arith)

sorted_sequence_lem_example :
    (sorted_sequence_position (internal Descriptor.version) ≡ 2)
    × (get_elem? sorted_internal_sequence 2 ≡ some (internal Descriptor.version))
unfolding count_before encoded_compare encoded
sorted_sequence_lem_example = sorted_sequence_lem Descriptor.version

check_version_lem_example : check_version 1 99 ≡ true
check_version_lem_example = check_version_lem 1 99
