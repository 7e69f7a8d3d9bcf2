-- ===== src/Stream/Pack.antt =====
-- What the records of stf-inc/stf_record_types.hpp write, and what that does to the stream:
-- `writeTraceId` and `pack_impl`. The stream after an exception is not modelled.
use stf_lib.Common.{ℕ, suc, ◌+◌, ◌-◌, ◌/◌, ◌^◌, Bool, true, false, not, ◌==◌, if◌then◌else◌}
use stf_lib.Common.{bit_and, List, [], ◌∷◌, ◌++◌, length, Result, ok, assert, ◌>>=◌, ◌>>◌}
use stf_lib.Branch.Decoder.{InstIem}
use stf_lib.Descriptor.{encoded}
use stf_lib.Registers.{pack_reg_num, pack_reg_metadata, is_vector}
use stf_lib.PcTracker.{PcRecord}
use stf_lib.Record.{
  Record, Text, Isa, TraceInfo, ProcessId, Body, Pte, PageTableWalk, Event, InstReg, InstMemAccess,
  InstMicroOp, BusMasterAccess, Clock, Dependency, get_id, stf_contain_event64,
}
use stf_lib.Stream.{
  Fstream, StreamError, vlen_missing, vlen_mismatch, set_fstream_vlen, track_pc,
  marker_record_callback,
}
use stf_lib.Stream.Writes.{write_uint, write_elements, write_container}
use stf_lib.Stream.Events.{convert_to_32bit_event}

-- The numbers of the enumerations ISA and INST_IEM.
abbrev pub isa_number : Isa → ℕ
isa_number Isa.reserved = 0
isa_number Isa.riscv = 1
isa_number Isa.arm = 2
isa_number Isa.x86 = 3
isa_number Isa.power = 4

abbrev pub iem_number : InstIem → ℕ
iem_number InstIem.invalid = 0
iem_number InstIem.rv32 = 1
iem_number InstIem.rv64 = 2
iem_number InstIem.reserved = 0xffff

-- `calcVectorLen`: the words of a vector register.
unfoldable pub calc_vector_len : ℕ → ℕ
calc_vector_len vlen = (vlen + 64 - 1) / 2 ^ 6

unfoldable pub pack_text : ℕ → Text → List ℕ
pack_text size_bytes text = write_container size_bytes (write_uint 1) text

unfoldable pub pack_pte : Pte → List ℕ
pack_pte p = write_uint 8 p.pa ++ write_uint 8 p.pte

unfoldable pub pack_page_table_walk : PageTableWalk → List ℕ
pack_page_table_walk w =
    write_uint 8 w.va
    ++ (write_uint 8 w.first_access_index
        ++ (write_uint 4 w.page_size ++ write_container 1 pack_pte w.ptes))

unfoldable pub pack_event : Bool → Event → List ℕ
pack_event has_32bit_events e =
    (if has_32bit_events
      then write_uint 4 (convert_to_32bit_event e.event_type)
      else write_uint 8 e.event_type)
    ++ write_container 1 (write_uint 8) e.content

-- The words of a register after the first.
unfoldable pub pack_more_words : Bool → ℕ → List ℕ → Result StreamError (List ℕ)
pack_more_words false vlen more_words = ok []
pack_more_words true vlen more_words = do
  assert (not (vlen == 0)) vlen_missing
  assert (calc_vector_len vlen == suc (length more_words)) vlen_mismatch
  ok (write_elements (write_uint 8) more_words)

unfoldable pub pack_inst_reg : Fstream → InstReg → Result StreamError (List ℕ)
pack_inst_reg s r = do
  more ← pack_more_words (is_vector r.reg) s.vlen r.more_words
  ok (
      write_uint 2 (pack_reg_num r.reg)
      ++ (write_uint 1 (pack_reg_metadata r.reg r.operand_type)
          ++ (write_uint 8 r.first_word ++ more)))

unfoldable pub pack_inst_mem_access : InstMemAccess → List ℕ
pack_inst_mem_access a =
    write_uint 8 a.access_address
    ++ (write_uint 2 a.access_size ++ (write_uint 2 a.access_attr ++ write_uint 1 a.access_type))

unfoldable pub pack_inst_microop : InstMicroOp → List ℕ
pack_inst_microop m = write_uint 1 m.microop_size ++ write_uint 4 m.microop

unfoldable pub pack_bus_master_access : BusMasterAccess → List ℕ
pack_bus_master_access a =
    write_uint 8 a.bus_address
    ++ (write_uint 2 a.bus_size
        ++ (write_uint 1 a.src_type
            ++ (write_uint 1 a.src_idx
                ++ (write_uint 4 a.bus_attr ++ write_uint 1 a.bus_access_type))))

unfoldable pub pack_clock : Clock → List ℕ
pack_clock c = write_uint 1 c.clock_id ++ pack_text 2 c.clock_name

unfoldable pub pack_dependency : Dependency → List ℕ
pack_dependency d =
    write_uint 8 d.dependency_id ++ (write_uint 8 d.cycle_delta ++ write_uint 1 d.dependency_clock)

unfoldable pub pack_trace_info : TraceInfo → List ℕ
pack_trace_info i =
    write_uint 1 i.generator
    ++ (write_uint 1 i.major_version
        ++ (write_uint 1 i.minor_version
            ++ (write_uint 1 i.minor_minor_version ++ pack_text 2 i.comment)))

unfoldable pub pack_process_id : ProcessId → List ℕ
pack_process_id p = write_uint 4 p.hw_thread_id ++ (write_uint 4 p.pid ++ write_uint 4 p.tid)

-- `GenericPCTargetRecord::pack_impl`
abbrev pub pack_pc_target : Fstream → (ℕ → PcRecord) → ℕ → Result StreamError (Fstream × List ℕ)
pack_pc_target s rec address = ok (track_pc s (rec address), write_uint 8 address)

-- `GenericOpcodeRecord::pack_impl`, of an opcode of so many bytes.
abbrev pub pack_opcode : Fstream → ℕ → ℕ → Result StreamError (Fstream × List ℕ)
pack_opcode s size opcode =
    ok (marker_record_callback (track_pc s (PcRecord.opcode_record size)), write_uint size opcode)

-- `ProtocolIdRecord::pack_impl`
abbrev pub pack_protocol : Fstream → ℕ → Result StreamError (Fstream × List ℕ)
pack_protocol s p = ok (record s { protocol = p }, write_uint 1 p)

unfoldable pub pack_body : Fstream → Body → Result StreamError (Fstream × List ℕ)
pack_body s (Body.inst_pc_target a) = pack_pc_target s PcRecord.pc_target_record a
pack_body s (Body.event_pc_target a) = pack_pc_target s PcRecord.pc_target_record a
pack_body s (Body.inst_opcode32 o) = pack_opcode s 4 o
pack_body s (Body.inst_opcode16 o) = pack_opcode s 2 o
pack_body s (Body.inst_ready_reg r) = ok (s, write_uint 2 r)
pack_body s (Body.inst_mem_content d) = ok (s, write_uint 8 d)
pack_body s (Body.bus_master_content d) = ok (s, write_uint 8 d)
pack_body s (Body.protocol_id p) = pack_protocol s p
pack_body s (Body.inst_reg r) = pack_inst_reg s r >>= λ bytes. ok (s, bytes)
pack_body s (Body.page_table_walk w) = ok (s, pack_page_table_walk w)
pack_body s (Body.inst_mem_access a) = ok (s, pack_inst_mem_access a)
pack_body s (Body.bus_master_access a) = ok (s, pack_bus_master_access a)
pack_body s (Body.event e) = ok (s, pack_event (s.has_32bit_events) e)
pack_body s (Body.inst_microop m) = ok (s, pack_inst_microop m)
pack_body s (Body.clock c) = ok (s, pack_clock c)
pack_body s (Body.transaction t) = ok (marker_record_callback s, t)
pack_body s (Body.transaction_dependency d) = ok (s, pack_dependency d)

-- `VLenConfigRecord::pack_impl`
abbrev pub pack_vlen_config : Fstream → ℕ → Result StreamError (Fstream × List ℕ)
pack_vlen_config s vlen = set_fstream_vlen s vlen >>= λ s'. ok (s', write_uint 4 vlen)

-- `TraceInfoFeatureRecord::pack_impl`, with `handleStreamFlags_`.
abbrev pub pack_features : Fstream → ℕ → Result StreamError (Fstream × List ℕ)
pack_features s f =
    ok (record s { has_32bit_events = bit_and f stf_contain_event64 == 0 }, write_uint 8 f)

abbrev pub pack_identifier : Text → List ℕ
pack_identifier t = write_elements (write_uint 1) t

abbrev pub pack_version : ℕ → ℕ → List ℕ
pack_version major minor = write_uint 4 major ++ write_uint 4 minor

unfoldable pub pack_impl : Fstream → Record → Result StreamError (Fstream × List ℕ)
pack_impl s (Record.identifier t) = ok (s, pack_identifier t)
pack_impl s (Record.version major minor) = ok (s, pack_version major minor)
pack_impl s (Record.comment t) = ok (s, pack_text 4 t)
pack_impl s (Record.isa i) = ok (s, write_uint 2 (isa_number i))
pack_impl s (Record.inst_iem m) = ok (s, write_uint 2 (iem_number m))
pack_impl s (Record.trace_info i) = ok (s, pack_trace_info i)
pack_impl s (Record.trace_info_feature f) = pack_features s f
pack_impl s (Record.process_id_ext p) = ok (s, pack_process_id p)
pack_impl s (Record.force_pc pc) = pack_pc_target s PcRecord.force_pc_record pc
pack_impl s (Record.vlen_config vlen) = pack_vlen_config s vlen
pack_impl s (Record.isa_extended t) = ok (s, pack_text 4 t)
pack_impl s Record.end_header = ok (s, [])
pack_impl s (Record.body b) = pack_body s b

-- `STFObject::pack`: the descriptor and the contents.
unfoldable pub pack_record : Fstream → Record → Result StreamError (Fstream × List ℕ)
pack_record s rec = do
  (s', bytes) ← pack_impl s rec
  ok (s', write_uint 1 (encoded (get_id rec)) ++ bytes)

-- A trace of records, one after the other.
unfoldable pub pack_records : Fstream → List Record → Result StreamError (Fstream × List ℕ)
pack_records s [] = ok (s, [])
pack_records s (rec ∷ records) = do
  (s', bytes) ← pack_record s rec
  (s'', rest) ← pack_records s' records
  ok (s'', bytes ++ rest)
