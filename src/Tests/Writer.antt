-- ===== src/Tests/Writer.antt =====
-- A header written and read, records of the body, and a reader that is used twice, for STFWriter
-- and STFReader.
use stf_lib.Common.{◌≡◌, refl, arith, true}
use stf_lib.Common.{List, [], ◌∷◌, ◌++◌, some, ok}
use stf_lib.Descriptor.{encoded, is_instruction_record}
use stf_lib.Branch.Decoder.{InstIem}
use stf_lib.Record.{Record, Isa, TraceInfo, stf_contain_event64}
use stf_lib.Writer.{StfWriter, write, write_all, pack, in_order, check_placement}
use stf_lib.Record.{Body}
use stf_lib.Writer.{new_stream}
use stf_lib.Version.{stf_cur_version_major, stf_cur_version_minor}
use stf_lib.Writer.Life.{new_writer, open_writer, close, open_writer-close, finalize_header}
use stf_lib.Writer.Finalize.{IsReady}
use stf_lib.Writer.Contents.{finalize_header-written}
use stf_lib.Writer.Order.{contents_follow, in_place, write_all-ordered}
use stf_lib.Reader.{
  StfReader, new_reader, open_reader, close_reader, get_header_comments_string, read_header,
  read_version, read_records, validate_header, unpack, accept, same_text,
}
use stf_lib.Reader.RoundTrip.{opened_reader, open_reader-finalize_header, trace}
use stf_lib.Reader.Comments.{get_header_comments_string-close_reader}

abbrev pub generator : TraceInfo
generator = record {
  generator = 1;
  major_version = 2;
  minor_version = 0;
  minor_minor_version = 0;
  comment = [];
}

-- A writer of an RV64 trace that starts at 0x80000000, opened and filled.
abbrev pub filled_writer : StfWriter
filled_writer = record new_writer {
  stream = record new_stream { written = trace [] };
  is_open = true;
  header_started = true;
  last_desc = 2;
  header_comments = (b'a' ∷ []) ∷ (b'b' ∷ []) ∷ [];
  trace_info_records = generator ∷ [];
  isa = some Isa.riscv;
  initial_iem = some InstIem.rv64;
  initial_pc = some 0x80000000;
  vlen_config = some 128;
}

pub filled_writer-IsReady : IsReady Isa.riscv InstIem.rv64 filled_writer
filled_writer-IsReady = record {
  has_isa = refl;
  has_iem = refl;
  has_trace_info = refl;
  under_way = (refl, refl, refl, refl, refl);
  unwritten = (refl, refl, refl, refl, refl, refl, refl, refl, refl);
  at_start = omega arith;
  vlen_fits = omega arith;
  no_vlen = refl;
}

open_reader-finalize_header_example :
    (w' : StfWriter) × (finalize_header filled_writer ≡ ok w')
    × (open_reader (w'.stream.written ++ []) new_reader
        ≡ opened_reader Isa.riscv InstIem.rv64 filled_writer [])
open_reader-finalize_header_example =
    open_reader-finalize_header Isa.riscv InstIem.rv64 filled_writer [] filled_writer-IsReady refl

finalize_header-written_example :
    (w' : StfWriter) × (finalize_header filled_writer ≡ ok w')
    × (w'.header_finalized ≡ true)
    × (w'.stream.written
        ≡ trace (
            Record.comment (b'a' ∷ [])
            ∷ Record.comment (b'b' ∷ [])
            ∷ Record.isa Isa.riscv
            ∷ Record.inst_iem InstIem.rv64
            ∷ Record.trace_info generator
            ∷ Record.trace_info_feature stf_contain_event64
            ∷ Record.force_pc 0x80000000
            ∷ Record.vlen_config 128
            ∷ Record.end_header
            ∷ []))
finalize_header-written_example =
    finalize_header-written Isa.riscv InstIem.rv64 filled_writer filled_writer-IsReady

-- A writer that had a process ID, opened again.
open_writer-close_example :
    open_writer (close (record filled_writer { force_32bit_events = true }))
    ≡ ok (record new_writer {
      stream = record new_stream { written = trace [] };
      is_open = true;
      header_started = true;
      last_desc = 2;
      force_32bit_events = true;
    })
open_writer-close_example = open_writer-close (record filled_writer { force_32bit_events = true })

-- A load, in the body of a trace.
abbrev load : List Record
load =
    Record.body (
      Body.inst_mem_access
        (record { access_address = 0x1000; access_size = 8; access_attr = 0; access_type = 1 }))
    ∷ Record.body (Body.inst_mem_content 5)
    ∷ Record.body (Body.inst_opcode32 0x13)
    ∷ []

abbrev body_writer : StfWriter
body_writer = record new_writer { header_started = true; header_finalized = true; last_desc = 19 }

write_all-ordered_example :
    (load ≡ [] ++ load) × (contents_follow 19 load ≡ true) × (in_place true load ≡ true)
unfolding write_all write pack in_order check_placement encoded is_instruction_record
write_all-ordered_example =
    write_all-ordered load body_writer
      {w' = record body_writer { stream = record new_stream { written = load }; last_desc = 240 }}
      refl

-- A second trace, without comments, read by a reader that was asked for the comments of another.
abbrev second_trace : List Record
second_trace = trace (
    Record.isa Isa.riscv
    ∷ Record.inst_iem InstIem.rv64
    ∷ Record.trace_info generator
    ∷ Record.trace_info_feature 0
    ∷ Record.force_pc 0x1000
    ∷ Record.end_header
    ∷ [])

abbrev first_reader : StfReader
first_reader = record new_reader { is_open = true; header_comments = (b'a' ∷ []) ∷ [] }

abbrev second_reader : StfReader
second_reader = record new_reader {
  is_open = true;
  version = some (stf_cur_version_major, stf_cur_version_minor);
  header_comments_str = (b'a' ∷ []) ∷ [];
  trace_info_records = generator ∷ [];
  trace_features = some 0;
  isa = some Isa.riscv;
  initial_iem = some InstIem.rv64;
  initial_pc = some 0x1000;
  stream_has_32bit_events = true;
  stream_initial_pc = 0x1000;
}

get_header_comments_string-close_reader_example :
    (get_header_comments_string second_reader).0 ≡ ((b'a' ∷ []) ∷ [])
unfolding get_header_comments_string open_reader close_reader read_header read_version read_records
    validate_header unpack accept same_text
get_header_comments_string-close_reader_example =
    get_header_comments_string-close_reader first_reader second_trace {rd' = second_reader} refl
      refl
