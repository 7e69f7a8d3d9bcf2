-- ===== src/Writer.antt =====
-- The writer of instruction traces: lib/stf_writer.cpp over lib/stf_writer_base.cpp.
-- An operation takes the writer and returns the new one, or the error of the assertion that failed;
-- the writer after an exception is not modelled. The stream is the list of the records written.
pub mod Header
pub mod Life
pub mod Blocks
pub mod Stages
pub mod FirstBlocks
pub mod LastBlocks
pub mod Finalize
pub mod Contents
pub mod Order
use stf_lib.Common.{ℕ, ◌+◌, Bool, true, false, not, ◌&&◌, ◌||◌, ltb, leb, ◌==◌, if◌then◌else◌}
use stf_lib.Common.{bit_or, bit_and, List, [], ◌∷◌, ◌++◌, map, Option, none, some}
use stf_lib.Common.{Result, ok, err, assert, ◌>>=◌, ◌>>◌}
use stf_lib.Descriptor.{Descriptor, encoded, is_instruction_record}
use stf_lib.Branch.Decoder.{InstIem}
use stf_lib.Record.{Record, Isa, TraceInfo, ProcessId, Text, get_id, ident_str, stf_contain_event64}
use stf_lib.Version.{stf_cur_version_major, stf_cur_version_minor}

pub data WriterError : Type 0 where
  already_open mem_content_missing bus_content_missing out_of_order : WriterError
  repeated_record header_not_started header_finalized header_not_finalized : WriterError
  transaction_record reserved_record vlen_set_twice vlen_too_small invalid_vlen : WriterError
  comments_not_first isa_too_late iem_too_late trace_info_too_late features_too_late : WriterError
  isa_missing iem_missing trace_info_missing features_missing : WriterError

-- STFOFstream, with the state that packing a record sets.
pub record OutStream : Type 0 where
  pub written : List Record
  pub vlen : ℕ
  pub has_32bit_events : Bool

abbrev pub new_stream : OutStream
new_stream = record { written = []; vlen = 0; has_32bit_events = false }

pub record StfWriter : Type 0 where
  pub stream : OutStream
  pub is_open : Bool
  pub header_comments : List Text
  pub header_comments_written : Bool
  pub trace_info_records : List TraceInfo
  pub trace_info_records_written : Bool
  pub trace_features : Option ℕ
  pub trace_features_written : Bool
  pub header_started : Bool
  pub header_finalized : Bool
  pub last_desc : ℕ
  pub isa : Option Isa
  pub isa_written : Bool
  pub initial_iem : Option InstIem
  pub initial_iem_written : Bool
  pub initial_pc : Option ℕ
  pub initial_pc_written : Bool
  pub initial_process_id : Option ProcessId
  pub initial_process_id_written : Bool
  pub vlen_config : Option ℕ
  pub vlen_config_written : Bool
  pub isa_extended : Option Text
  pub isa_extended_written : Bool
  pub wrote_event_record_group : Bool
  pub wrote_page_table_walk : Bool
  pub wrote_reg : Bool
  pub force_32bit_events : Bool

-- `STFFstream::setVLen`; 64 is the width of a register value.
unfoldable pub set_stream_vlen : OutStream → ℕ → Result WriterError OutStream
set_stream_vlen s vlen = do
  assert (s.vlen == 0) vlen_set_twice
  assert (leb 64 vlen) vlen_too_small
  ok (record s { vlen = vlen })

-- What `pack` does to the stream: a TRACE_INFO_FEATURE and a VLEN_CONFIG record also set its modes.
unfoldable pub pack : Record → OutStream → Result WriterError OutStream
pack (Record.vlen_config vlen) s = set_stream_vlen s vlen >>= λ s'.
    ok (record s' { written = s'.written ++ (Record.vlen_config vlen ∷ []) })
pack (Record.trace_info_feature f) s = ok (record s {
  written = s.written ++ (Record.trace_info_feature f ∷ []);
  has_32bit_events = bit_and f stf_contain_event64 == 0;
})
pack rec s = ok (record s { written = s.written ++ (rec ∷ []) })

-- The third assertion of `operator<<`: which record may follow which.
unfoldable pub in_order : StfWriter → Descriptor → Bool
in_order w desc =
    let last_was_memory_content = w.last_desc == encoded Descriptor.inst_mem_content in
    let last_was_bus_content = w.last_desc == encoded Descriptor.bus_master_content in
    let is : Descriptor → Bool = λ d. encoded desc == encoded d in
    leb w.last_desc (encoded desc)
    || is_instruction_record w.last_desc
    || (last_was_memory_content && is Descriptor.inst_mem_access)
    || (last_was_bus_content && is Descriptor.bus_master_access)
    || (w.wrote_event_record_group && is Descriptor.event)
    || ((w.wrote_page_table_walk || w.wrote_reg) && is Descriptor.inst_pc_target)
    || (w.wrote_page_table_walk && is Descriptor.inst_reg)
    || ((last_was_memory_content || last_was_bus_content) && is Descriptor.inst_reg)
    || is Descriptor.comment
    || is Descriptor.process_id_ext
    || is Descriptor.force_pc

-- The cases for the records of the header: not after it, and not before it.
abbrev pub header_only : StfWriter → Result WriterError (Unit {0})
header_only w = do
  assert (not w.header_finalized) header_finalized
  assert w.header_started header_not_started

-- The switch of `operator<<`: where in the trace a record may stand.
unfoldable pub check_placement : StfWriter → Descriptor → Result WriterError (Unit {0})
check_placement w Descriptor.identifier = assert (not w.header_started) repeated_record
check_placement w Descriptor.version = assert (not w.header_started) repeated_record
check_placement w Descriptor.comment = assert w.header_started header_not_started
check_placement w Descriptor.isa = header_only w
check_placement w Descriptor.trace_info = header_only w
check_placement w Descriptor.trace_info_feature = header_only w
check_placement w Descriptor.vlen_config = header_only w
check_placement w Descriptor.isa_extended = header_only w
check_placement w Descriptor.end_header = header_only w
check_placement w Descriptor.process_id_ext = assert w.header_started header_not_started
check_placement w Descriptor.inst_iem = assert w.header_started header_not_started
check_placement w Descriptor.force_pc = assert w.header_started header_not_started
check_placement w Descriptor.protocol_id = err transaction_record
check_placement w Descriptor.clock_id = err transaction_record
check_placement w Descriptor.transaction = err transaction_record
check_placement w Descriptor.transaction_dependency = err transaction_record
check_placement w Descriptor.reserved = err reserved_record
check_placement w Descriptor.reserved_end = err reserved_record
check_placement w desc = assert w.header_finalized header_not_finalized

-- `STFWriter::operator<<`
unfoldable pub write : Record → StfWriter → Result WriterError StfWriter
write rec w = do
  let desc = get_id rec
  let encoded_desc = encoded desc
  let last_desc = w.last_desc
  let last_was_memory_access = last_desc == encoded Descriptor.inst_mem_access
  let last_was_bus_access = last_desc == encoded Descriptor.bus_master_access
  let cur_is_memory_content = encoded_desc == encoded Descriptor.inst_mem_content
  let cur_is_bus_content = encoded_desc == encoded Descriptor.bus_master_content
  assert (not last_was_memory_access || cur_is_memory_content) mem_content_missing
  assert (not last_was_bus_access || cur_is_bus_content) bus_content_missing
  assert (in_order w desc) out_of_order
  check_placement w desc
  stream ← pack rec w.stream
  ok (record w {
    stream = stream;
    wrote_event_record_group =
        encoded_desc == encoded Descriptor.event_pc_target && last_desc == encoded Descriptor.event;
    wrote_page_table_walk = encoded_desc == encoded Descriptor.page_table_walk;
    wrote_reg = encoded_desc == encoded Descriptor.inst_reg;
    last_desc = encoded_desc;
  })

unfoldable pub write_all : List Record → StfWriter → Result WriterError StfWriter
write_all [] w = ok w
write_all (r ∷ rs) w = write r w >>= λ w'. write_all rs w'
