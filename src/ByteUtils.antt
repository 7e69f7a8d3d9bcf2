-- ===== src/ByteUtils.antt =====
-- stf-inc/util.hpp, namespace byte_utils: masks, bit extraction and sign extension.
-- An integer type is its width in bits, and a value of it is its bit pattern. `shl` and `shr` are
-- the shifts of an unsigned type of width `w`; a signed result is its two's complement pattern.
pub mod Fields
use stf_lib.Common.{ℕ, ◌+◌, ◌-◌, ◌*◌, ◌/◌, ◌%◌, ◌^◌, bit_and, bit_or}
use stf_lib.Common.{ltb, leb, ◌==◌, if◌then◌else◌, ◌&&◌}
use stf_lib.Common.{List, [], ◌∷◌, Option, none, some}

abbrev pub shl : ℕ → ℕ → ℕ → ℕ
shl w x k = x * 2 ^ k % 2 ^ w

abbrev pub shr : ℕ → ℕ → ℕ
shr x k = x / 2 ^ k

-- `bitMask<T, num_bits>()`, whose static_assert keeps `num_bits` from 1 to the width.
unfoldable pub bit_mask : ℕ → ℕ → ℕ
bit_mask w num_bits = if num_bits == w then 2 ^ w - 1 else shl 64 1 num_bits - 1

-- `bitMask<T>(num_bits)`; `none` is the failed assertion.
unfoldable pub checked_bit_mask : ℕ → ℕ → Option ℕ
unfolding bit_mask
checked_bit_mask w num_bits =
    if ltb 0 num_bits && leb num_bits w then some (bit_mask w num_bits) else none

-- The two parameter structs of `BitExtractor`, and their static `get`.
pub data BitArg : Type 0 where
  bit : ℕ → ℕ → BitArg
  bit_range : ℕ → ℕ → ℕ → BitArg

-- `result <<= to - from`, `result >>= from - to`, or nothing.
abbrev pub relocate : ℕ → ℕ → ℕ → ℕ → ℕ
relocate w from to result =
    if ltb from to
    then shl w result (to - from)
    else if ltb to from
    then shr result (from - to)
    else result

unfoldable pub get_arg : ℕ → BitArg → ℕ → ℕ
unfolding bit_mask
get_arg w (bit bit_idx dest_bit_idx) val =
    relocate w bit_idx dest_bit_idx (bit_and val (shl w 1 bit_idx))
get_arg w (bit_range start_idx end_idx dest_start_idx) val =
    relocate w start_idx dest_start_idx
      (bit_and val (shl w (bit_mask w (start_idx - end_idx + 1)) end_idx))

-- `BitExtractor<T>::get<args...>(val)`, a right fold over `|`.
unfoldable pub extract : ℕ → List BitArg → ℕ → ℕ
unfolding get_arg
extract w [] val = 0
extract w (a ∷ []) val = get_arg w a val
extract w (a ∷ b ∷ args) val = bit_or (get_arg w a val) (extract w (b ∷ args) val)

-- `getBitRange<start, end, dest_start>(val)`, `getBitRange<start, end>(val)` and `getBit<i>(val)`.
unfoldable pub get_bit_range : ℕ → ℕ → ℕ → ℕ → ℕ → ℕ
unfolding get_arg
get_bit_range w start_idx end_idx dest_start_idx val =
    get_arg w (bit_range start_idx end_idx dest_start_idx) val

unfoldable pub get_bit : ℕ → ℕ → ℕ → ℕ
unfolding get_arg
get_bit w bit_idx val = get_arg w (bit bit_idx bit_idx) val

-- `signExtend<Width, int64_t>(val)`: the assignment to the bit-field keeps the low `width` bits,
-- and the read extends its sign.
unfoldable pub sign_extend : ℕ → ℕ → ℕ
sign_extend width val =
    let low = val % 2 ^ width in if ltb low (2 ^ (width - 1)) then low else low + 2 ^ 64 - 2 ^ width
