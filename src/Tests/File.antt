-- ===== src/Tests/File.antt =====
-- A header and a short trace through the bytes of the file.
use stf_lib.Common.{true, false, ℕ, ◌≡◌, refl, arith, List, [], ◌∷◌, ◌++◌, some, ok}
use stf_lib.Branch.Decoder.{InstIem}
use stf_lib.Record.{Record, Isa, Body, stf_contain_event64}
use stf_lib.Writer.{StfWriter}
use stf_lib.Writer.Life.{finalize_header, all_written}
use stf_lib.Reader.{new_reader, open_reader}
use stf_lib.Reader.RoundTrip.{opened_reader, trace}
use stf_lib.Reader.Bytes.{open_reader-read_trace}
use stf_lib.Stream.{Fstream, new_fstream}
use stf_lib.Stream.Pack.{
  pack_records, pack_record, pack_impl, pack_body, pack_text, pack_trace_info,
}
use stf_lib.Stream.{set_fstream_vlen}
use stf_lib.Stream.Writes.{write_uint, write_elements, write_container}
use stf_lib.Descriptor.{encoded, is_instruction_record}
use stf_lib.PcTracker.{new_tracker, track, track_opcode}
use stf_lib.Writer.{write_all, write, in_order, check_placement, pack, set_stream_vlen}
use stf_lib.Writer.Header.{
  set_trace_feature, flush_header, flush_comments, flush_isa, flush_iem, flush_trace_info,
  flush_features, flush_process_id, flush_pc, flush_vlen, flush_isa_extended,
}
use stf_lib.Stream.Trace.{ReadTrace, read_trace}
use stf_lib.Tests.Writer.{generator, filled_writer, filled_writer-IsReady}

abbrev header : List Record
header = trace (
    Record.comment (b'a' ∷ [])
    ∷ Record.comment (b'b' ∷ [])
    ∷ Record.isa Isa.riscv
    ∷ Record.inst_iem InstIem.rv64
    ∷ Record.trace_info generator
    ∷ Record.trace_info_feature stf_contain_event64
    ∷ Record.force_pc 0x80000000
    ∷ Record.vlen_config 128
    ∷ Record.end_header
    ∷ [])

abbrev finalized_writer : StfWriter
finalized_writer = record filled_writer {
  stream = record { written = header; vlen = 128; has_32bit_events = false };
  header_comments_written = true;
  trace_info_records_written = true;
  trace_features = some stf_contain_event64;
  trace_features_written = true;
  header_finalized = true;
  last_desc = 19;
  isa_written = true;
  initial_iem_written = true;
  initial_pc_written = true;
  vlen_config_written = true;
}

abbrev body_records : List Record
body_records = Record.body (Body.inst_opcode32 0x13) ∷ []

finalizes : finalize_header filled_writer ≡ ok finalized_writer
unfolding finalize_header all_written set_trace_feature flush_header flush_comments write_all write
    encoded in_order check_placement pack flush_isa flush_iem flush_trace_info flush_features
    flush_process_id flush_pc flush_vlen is_instruction_record flush_isa_extended set_stream_vlen
finalizes = refl

abbrev file_bytes : List ℕ
file_bytes =
    1 ∷ b'S' ∷ b'T' ∷ b'F' ∷ 2 ∷ 1 ∷ 0 ∷ 0 ∷ 0 ∷ 6 ∷ 0 ∷ 0 ∷ 0 ∷ 3 ∷ 1 ∷ 0 ∷ 0 ∷ 0 ∷ b'a' ∷ 3 ∷ 1
    ∷ 0 ∷ 0 ∷ 0 ∷ b'b' ∷ 4 ∷ 1 ∷ 0 ∷ 5 ∷ 2 ∷ 0 ∷ 6 ∷ 1 ∷ 2 ∷ 0 ∷ 0 ∷ 0 ∷ 0 ∷ 7 ∷ 0 ∷ 0 ∷ 8 ∷ 0 ∷ 0
    ∷ 0 ∷ 0 ∷ 0 ∷ 9 ∷ 0 ∷ 0 ∷ 0 ∷ 128 ∷ 0 ∷ 0 ∷ 0 ∷ 0 ∷ 10 ∷ 128 ∷ 0 ∷ 0 ∷ 0 ∷ 19 ∷ 240 ∷ 0x13 ∷ 0
    ∷ 0 ∷ 0 ∷ []

abbrev file_end : Fstream
file_end = record {
  pc_tracker = record {
    pc = 0x80000000;
    next_pc = 0x80000004;
    target_pc = 0;
    pc_offset = 0;
    is_branch = false;
  };
  num_marker_records = 1;
  vlen = 128;
  has_32bit_events = false;
  protocol = 2;
}

file_packs : pack_records new_fstream (header ++ body_records) ≡ ok (file_end, file_bytes)
unfolding pack_records pack_record pack_impl pack_body set_fstream_vlen write_uint encoded
    write_container write_elements pack_text pack_trace_info new_tracker track track_opcode
file_packs = refl

open_reader-read_trace_example :
    (t : ReadTrace) × (read_trace 13 new_fstream file_bytes ≡ some t)
    × (open_reader t.records new_reader
        ≡ opened_reader Isa.riscv InstIem.rv64 filled_writer body_records)
open_reader-read_trace_example =
    open_reader-read_trace Isa.riscv InstIem.rv64 filled_writer finalized_writer body_records
      file_end file_bytes 13 filled_writer-IsReady refl finalizes (omega arith) file_packs
      (omega arith)
