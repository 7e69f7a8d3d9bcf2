-- ===== src/Stream/Unpack.antt =====
-- What the records of stf-inc/stf_record_types.hpp read, and what that does to the stream:
-- `unpack_impl`, and the factory of stf-inc/stf_factory.hpp that picks the type of the record. The
-- metadata and the protocol data of a transaction are not modelled.
use stf_lib.Common.{ℕ, ◌-◌, Bool, true, false, not, ◌==◌, if◌then◌else◌}
use stf_lib.Common.{bit_and, List, [], ◌∷◌, Option, none, some, ok, err}
use stf_lib.Branch.Decoder.{InstIem}
use stf_lib.Descriptor.{Descriptor, internal, to_internal, descriptors}
use stf_lib.Registers.{is_vector, decode}
use stf_lib.PcTracker.{PcRecord}
use stf_lib.Record.{
  Record, Text, Isa, TraceInfo, ProcessId, Body, Pte, PageTableWalk, Event, InstReg, InstMemAccess,
  InstMicroOp, BusMasterAccess, Clock, Dependency, stf_contain_event64,
}
use stf_lib.Stream.{
  invalid_descriptor, unread_transaction, out_of_bounds, vlen_missing, set_fstream_vlen, track_pc,
  marker_record_callback,
}
use stf_lib.Stream.Reads.{
  Read, pure, ◌>>=◌, ◌>>◌, stream_state, change, check, known, read_uint, read_elements,
  read_container, read_object_id,
}
use stf_lib.Stream.Events.{convert_from_32bit_event}
use stf_lib.Stream.Pack.{calc_vector_len}

abbrev pub isa_of : ℕ → Option Isa
isa_of n =
    if n == 0
    then some Isa.reserved
    else if n == 1
    then some Isa.riscv
    else if n == 2
    then some Isa.arm
    else if n == 3
    then some Isa.x86
    else if n == 4
    then some Isa.power
    else none

abbrev pub iem_of : ℕ → Option InstIem
iem_of n =
    if n == 0
    then some InstIem.invalid
    else if n == 1
    then some InstIem.rv32
    else if n == 2
    then some InstIem.rv64
    else if n == 0xffff
    then some InstIem.reserved
    else none

unfoldable pub unpack_text : ℕ → Read Text
unpack_text size_bytes = read_container size_bytes (read_uint 1)

unfoldable pub unpack_pte : Read Pte
unpack_pte = do pa ← read_uint 8; pte ← read_uint 8; pure (record { pa = pa; pte = pte })

unfoldable pub unpack_page_table_walk : Read PageTableWalk
unpack_page_table_walk = do
  va ← read_uint 8
  index ← read_uint 8
  page_size ← read_uint 4
  ptes ← read_container 1 unpack_pte
  pure (record { va = va; first_access_index = index; page_size = page_size; ptes = ptes })

-- The event type, in the width that the stream has.
unfoldable pub unpack_event_type : Bool → Read ℕ
unpack_event_type true = do event32 ← read_uint 4; pure (convert_from_32bit_event event32)
unpack_event_type false = read_uint 8

unfoldable pub unpack_event : Read Event
unpack_event = do
  s ← stream_state
  event_type ← unpack_event_type (s.has_32bit_events)
  content ← read_container 1 (read_uint 8)
  pure (record { event_type = event_type; content = content })

-- The words of a register after the first.
unfoldable pub unpack_more_words : Bool → ℕ → Read (List ℕ)
unpack_more_words false vlen = pure []
unpack_more_words true vlen = do
  check (not (vlen == 0)) vlen_missing
  read_elements (calc_vector_len vlen - 1) (read_uint 8)

unfoldable pub unpack_inst_reg : Read InstReg
unpack_inst_reg = do
  reg_no ← read_uint 2
  reg_metadata ← read_uint 1
  first_word ← read_uint 8
  (reg, operand_type) ← pure (decode reg_no reg_metadata)
  s ← stream_state
  more_words ← unpack_more_words (is_vector reg) (s.vlen)
  pure (record {
    reg = reg;
    operand_type = operand_type;
    first_word = first_word;
    more_words = more_words;
  })

unfoldable pub unpack_inst_mem_access : Read InstMemAccess
unpack_inst_mem_access = do
  address ← read_uint 8
  size ← read_uint 2
  attr ← read_uint 2
  type ← read_uint 1
  pure (record {
    access_address = address;
    access_size = size;
    access_attr = attr;
    access_type = type;
  })

unfoldable pub unpack_inst_microop : Read InstMicroOp
unpack_inst_microop = do
  size ← read_uint 1
  microop ← read_uint 4
  pure (record { microop_size = size; microop = microop })

unfoldable pub unpack_bus_master_access : Read BusMasterAccess
unpack_bus_master_access = do
  address ← read_uint 8
  size ← read_uint 2
  src_type ← read_uint 1
  src_idx ← read_uint 1
  attr ← read_uint 4
  access_type ← read_uint 1
  pure (record {
    bus_address = address;
    bus_size = size;
    src_type = src_type;
    src_idx = src_idx;
    bus_attr = attr;
    bus_access_type = access_type;
  })

unfoldable pub unpack_clock : Read Clock
unpack_clock = do
  clock_id ← read_uint 1
  name ← unpack_text 2
  pure (record { clock_id = clock_id; clock_name = name })

unfoldable pub unpack_dependency : Read Dependency
unpack_dependency = do
  dependency_id ← read_uint 8
  cycle_delta ← read_uint 8
  clock_id ← read_uint 1
  pure (record {
    dependency_id = dependency_id;
    cycle_delta = cycle_delta;
    dependency_clock = clock_id;
  })

unfoldable pub unpack_trace_info : Read TraceInfo
unpack_trace_info = do
  generator ← read_uint 1
  major ← read_uint 1
  minor ← read_uint 1
  minor_minor ← read_uint 1
  comment ← unpack_text 2
  pure (record {
    generator = generator;
    major_version = major;
    minor_version = minor;
    minor_minor_version = minor_minor;
    comment = comment;
  })

unfoldable pub unpack_process_id : Read ProcessId
unpack_process_id = do
  hw_thread_id ← read_uint 4
  pid ← read_uint 4
  tid ← read_uint 4
  pure (record { hw_thread_id = hw_thread_id; pid = pid; tid = tid })

-- `GenericPCTargetRecord::unpack_impl`
abbrev pub unpack_pc_target : (ℕ → PcRecord) → Read ℕ
unpack_pc_target rec = do
  address ← read_uint 8
  change (λ s. ok (track_pc s (rec address)))
  pure address

-- `GenericOpcodeRecord::unpack_impl`, of an opcode of so many bytes; the record also keeps the PC
-- that the stream then has.
abbrev pub unpack_opcode : ℕ → Read ℕ
unpack_opcode size = do
  opcode ← read_uint size
  change (λ s. ok (marker_record_callback (track_pc s (PcRecord.opcode_record size))))
  pure opcode

abbrev pub unpack_vlen : Read ℕ
unpack_vlen = do vlen ← read_uint 4; change (λ s. set_fstream_vlen s vlen); pure vlen

abbrev pub unpack_features : Read ℕ
unpack_features = do
  features ← read_uint 8
  change (λ s. ok (record s { has_32bit_events = bit_and features stf_contain_event64 == 0 }))
  pure features

abbrev pub unpack_protocol : Read ℕ
unpack_protocol = do id ← read_uint 1; change (λ s. ok (record s { protocol = id })); pure id

abbrev pub unpack_isa : Read Isa
unpack_isa = do n ← read_uint 2; known (isa_of n)

abbrev pub unpack_iem : Read InstIem
unpack_iem = do n ← read_uint 2; known (iem_of n)

abbrev pub unpack_identifier : Read Text
unpack_identifier = read_elements 3 (read_uint 1)

abbrev pub unpack_version : Read Record
unpack_version = do major ← read_uint 4; minor ← read_uint 4; pure (Record.version major minor)

-- The result of a read, made into a record.
abbrev pub as_record {ℓ} : {A : Type ℓ} → (A → Record) → Read A → Read Record
as_record make read = do a ← read; pure (make a)

abbrev pub as_body {ℓ} : {A : Type ℓ} → (A → Body) → Read A → Read Record
as_body make read = as_record (λ a. Record.body (make a)) read

-- The constructors of the record types, which unpack.
unfoldable pub unpack_impl : Descriptor → Read Record
unpack_impl Descriptor.identifier = as_record Record.identifier unpack_identifier
unpack_impl Descriptor.version = unpack_version
unpack_impl Descriptor.comment = as_record Record.comment (unpack_text 4)
unpack_impl Descriptor.isa = as_record Record.isa unpack_isa
unpack_impl Descriptor.inst_iem = as_record Record.inst_iem unpack_iem
unpack_impl Descriptor.trace_info = as_record Record.trace_info unpack_trace_info
unpack_impl Descriptor.trace_info_feature = as_record Record.trace_info_feature unpack_features
unpack_impl Descriptor.process_id_ext = as_record Record.process_id_ext unpack_process_id
unpack_impl Descriptor.force_pc =
    as_record Record.force_pc (unpack_pc_target PcRecord.force_pc_record)
unpack_impl Descriptor.vlen_config = as_record Record.vlen_config unpack_vlen
unpack_impl Descriptor.isa_extended = as_record Record.isa_extended (unpack_text 4)
unpack_impl Descriptor.end_header = pure Record.end_header
unpack_impl Descriptor.protocol_id = as_body Body.protocol_id unpack_protocol
unpack_impl Descriptor.clock_id = as_body Body.clock unpack_clock
unpack_impl Descriptor.inst_pc_target =
    as_body Body.inst_pc_target (unpack_pc_target PcRecord.pc_target_record)
unpack_impl Descriptor.inst_reg = as_body Body.inst_reg unpack_inst_reg
unpack_impl Descriptor.inst_ready_reg = as_body Body.inst_ready_reg (read_uint 2)
unpack_impl Descriptor.page_table_walk = as_body Body.page_table_walk unpack_page_table_walk
unpack_impl Descriptor.inst_mem_access = as_body Body.inst_mem_access unpack_inst_mem_access
unpack_impl Descriptor.inst_mem_content = as_body Body.inst_mem_content (read_uint 8)
unpack_impl Descriptor.bus_master_access = as_body Body.bus_master_access unpack_bus_master_access
unpack_impl Descriptor.bus_master_content = as_body Body.bus_master_content (read_uint 8)
unpack_impl Descriptor.event = as_body Body.event unpack_event
unpack_impl Descriptor.event_pc_target =
    as_body Body.event_pc_target (unpack_pc_target PcRecord.pc_target_record)
unpack_impl Descriptor.inst_microop = as_body Body.inst_microop unpack_inst_microop
unpack_impl Descriptor.inst_opcode32 = as_body Body.inst_opcode32 (unpack_opcode 4)
unpack_impl Descriptor.inst_opcode16 = as_body Body.inst_opcode16 (unpack_opcode 2)
unpack_impl Descriptor.transaction = λ s bytes. err unread_transaction
unpack_impl Descriptor.transaction_dependency =
    as_body Body.transaction_dependency unpack_dependency
unpack_impl Descriptor.reserved = λ s bytes. err invalid_descriptor
unpack_impl Descriptor.reserved_end = λ s bytes. err invalid_descriptor

-- `getConstructor_`: the constructor at an index of `constructors_`, if that is in the array.
unfoldable pub constructor_at : ℕ → List Descriptor → Option Descriptor
constructor_at index [] = none
constructor_at index (d ∷ ds) = if internal d == index then some d else constructor_at index ds

abbrev pub constructed : Option Descriptor → Read Record
constructed none = λ s bytes. err out_of_bounds
constructed (some d) = unpack_impl d

-- `construct_`: a number outside of the table of descriptors is refused. A gap in that table is no
-- index of `constructors_`, which the source does not test.
unfoldable pub construct_at : Option ℕ → Read Record
construct_at none = λ s bytes. err invalid_descriptor
construct_at (some index) = constructed (constructor_at index descriptors)

unfoldable pub construct : ℕ → Read Record
construct object_id = construct_at (to_internal object_id)

-- `>>` of a record.
unfoldable pub read_record : Read Record
read_record = do object_id ← read_object_id; construct object_id
