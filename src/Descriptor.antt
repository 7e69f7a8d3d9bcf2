-- ===== src/Descriptor.antt =====
-- stf-inc/stf_descriptor.hpp: the two numberings of the record types and the tables between them.
-- A member of the enumerations is a `Descriptor`; `encoded` and `internal` are its two values, and
-- the lookups take any number, as a cast from a byte of the trace may give one.
pub mod Conversion
pub mod Order
use stf_lib.Common.{ℕ, zero, suc, ◌+◌, ltb, ◌==◌, if◌then◌else◌, Bool, ◌||◌, Option, none, some}
use stf_lib.Common.{List, [], ◌∷◌, get_elem?}

pub data Descriptor : Type 0 where
  reserved identifier version comment isa inst_iem trace_info trace_info_feature : Descriptor
  process_id_ext force_pc vlen_config protocol_id clock_id isa_extended end_header : Descriptor
  inst_pc_target inst_reg inst_ready_reg page_table_walk inst_mem_access : Descriptor
  inst_mem_content bus_master_access bus_master_content event event_pc_target : Descriptor
  inst_microop inst_opcode32 inst_opcode16 transaction transaction_dependency : Descriptor
  reserved_end : Descriptor

-- `encoded::Descriptor`, as it stands in a trace.
unfoldable pub encoded : Descriptor → ℕ
encoded reserved = 0
encoded identifier = 1
encoded version = 2
encoded comment = 3
encoded isa = 4
encoded inst_iem = 5
encoded trace_info = 6
encoded trace_info_feature = 7
encoded process_id_ext = 8
encoded force_pc = 9
encoded vlen_config = 10
encoded protocol_id = 11
encoded clock_id = 12
encoded isa_extended = 13
encoded end_header = 19
encoded inst_pc_target = 31
encoded inst_reg = 40
encoded inst_ready_reg = 41
encoded page_table_walk = 50
encoded inst_mem_access = 60
encoded inst_mem_content = 61
encoded bus_master_access = 62
encoded bus_master_content = 63
encoded event = 100
encoded event_pc_target = 101
encoded inst_microop = 230
encoded inst_opcode32 = 240
encoded inst_opcode16 = 241
encoded transaction = 250
encoded transaction_dependency = 251
encoded reserved_end = 252

-- `internal::Descriptor`, without gaps.
unfoldable pub internal : Descriptor → ℕ
internal reserved = 0
internal inst_reg = 1
internal inst_opcode16 = 2
internal inst_opcode32 = 3
internal inst_mem_access = 4
internal inst_mem_content = 5
internal inst_pc_target = 6
internal event = 7
internal event_pc_target = 8
internal page_table_walk = 9
internal bus_master_access = 10
internal bus_master_content = 11
internal comment = 12
internal force_pc = 13
internal inst_ready_reg = 14
internal process_id_ext = 15
internal inst_microop = 16
internal identifier = 17
internal isa = 18
internal inst_iem = 19
internal trace_info = 20
internal trace_info_feature = 21
internal version = 22
internal vlen_config = 23
internal protocol_id = 24
internal clock_id = 25
internal isa_extended = 26
internal end_header = 27
internal transaction = 28
internal transaction_dependency = 29
internal reserved_end = 30

-- The names of `INIT_DESC_ARRAY`.
abbrev pub descriptors : List Descriptor
descriptors =
    reserved ∷ identifier ∷ version ∷ comment ∷ isa ∷ inst_iem ∷ trace_info ∷ trace_info_feature
    ∷ process_id_ext ∷ force_pc ∷ vlen_config ∷ protocol_id ∷ clock_id ∷ isa_extended ∷ end_header
    ∷ inst_pc_target ∷ inst_reg ∷ inst_ready_reg ∷ page_table_walk ∷ inst_mem_access
    ∷ inst_mem_content ∷ bus_master_access ∷ bus_master_content ∷ event ∷ event_pc_target
    ∷ inst_microop ∷ inst_opcode32 ∷ inst_opcode16 ∷ transaction ∷ transaction_dependency
    ∷ reserved_end ∷ []

-- The switch of `initDescArray_`: `default` is what a value outside the enumeration maps to.
pub switch_entry : (Descriptor → ℕ) → (Descriptor → ℕ) → ℕ → ℕ → List Descriptor → ℕ
switch_entry from to default i [] = default
switch_entry from to default i (d ∷ ds) =
    if from d == i then to d else switch_entry from to default i ds

-- `enums::size`
abbrev pub enum_size : (Descriptor → ℕ) → ℕ
enum_size from = from reserved_end + 1

-- The table from its entry `i` on, with `n` entries left.
pub desc_array : (Descriptor → ℕ) → (Descriptor → ℕ) → ℕ → ℕ → List ℕ
desc_array from to i zero = []
desc_array from to i (suc n) =
    switch_entry from to (enum_size from) i descriptors ∷ desc_array from to (i + 1) n

-- `convert`; `none` is the std::out_of_range of `ARRAY_.at`.
pub convert : (Descriptor → ℕ) → (Descriptor → ℕ) → ℕ → Option ℕ
unfolding desc_array switch_entry
convert from to d = get_elem? (desc_array from to 0 (enum_size from)) d

unfoldable pub to_internal : ℕ → Option ℕ
unfolding convert encoded internal
to_internal d = convert encoded internal d

unfoldable pub to_encoded : ℕ → Option ℕ
unfolding convert encoded internal
to_encoded d = convert internal encoded d

-- `encodedCompare`; both lookups are in range for a descriptor.
unfoldable pub encoded_compare : Descriptor → Descriptor → Bool
encoded_compare lhs rhs = ltb (encoded lhs) (encoded rhs)

-- `initSortedInternalSequence`: the encoded table without its gaps.
pub skip_gaps : ℕ → List ℕ → List ℕ
skip_gaps gap [] = []
skip_gaps gap (d ∷ ds) = if d == gap then skip_gaps gap ds else d ∷ skip_gaps gap ds

unfoldable pub sorted_internal_sequence : List ℕ
unfolding skip_gaps desc_array switch_entry encoded internal
sorted_internal_sequence =
    skip_gaps (enum_size encoded) (desc_array encoded internal 0 (enum_size encoded))

-- `initSortedInternalSequenceReverseMapping`: the loop over the sequence that stores each position
-- in the array `seq`, here a function.
pub store_positions : (ℕ → ℕ) → ℕ → List ℕ → ℕ → ℕ
store_positions seq i [] = seq
store_positions seq i (x ∷ xs) = store_positions (λ d. if d == x then i else seq d) (i + 1) xs

unfoldable pub sorted_sequence_position : ℕ → ℕ
unfolding store_positions sorted_internal_sequence
sorted_sequence_position = store_positions (λ d. 0) 0 sorted_internal_sequence

-- `STFRecord::isInstructionRecord(encoded::Descriptor)` of stf-inc/stf_record.hpp.
unfoldable pub is_instruction_record : ℕ → Bool
unfolding encoded
is_instruction_record desc = desc == encoded inst_opcode16 || desc == encoded inst_opcode32
