-- ===== src/Writer/Life.antt =====
-- The life of a writer: `open`, `finalizeHeader` and `close` of lib/stf_writer.cpp and
-- lib/stf_writer_base.cpp. The file that `open` chooses by its name is not modelled.
use stf_lib.Common.{◌≡◌, refl, Bool, true, false, not, ◌&&◌, ◌||◌, if◌then◌else◌}
use stf_lib.Common.{[], ◌∷◌, none, some, Result, ok, ◌>>=◌, ◌>>◌, assert}
use stf_lib.Descriptor.{Descriptor, encoded, is_instruction_record}
use stf_lib.Branch.Decoder.{InstIem}
use stf_lib.Record.{Record, Isa, ident_str, stf_contain_event64}
use stf_lib.Writer.{StfWriter, WriterError, write, pack, in_order, check_placement}
use stf_lib.Writer.{new_stream}
use stf_lib.Version.{stf_cur_version_major, stf_cur_version_minor}
use stf_lib.Writer.Header.{is_some, set_trace_feature, flush_header}

-- A writer that was never opened.
abbrev pub new_writer : StfWriter
new_writer = record {
  stream = new_stream;
  is_open = false;
  header_comments = [];
  header_comments_written = false;
  trace_info_records = [];
  trace_info_records_written = false;
  trace_features = none;
  trace_features_written = false;
  header_started = false;
  header_finalized = false;
  last_desc = 0;
  isa = none;
  isa_written = false;
  initial_iem = none;
  initial_iem_written = false;
  initial_pc = none;
  initial_pc_written = false;
  initial_process_id = none;
  initial_process_id_written = false;
  vlen_config = none;
  vlen_config_written = false;
  isa_extended = none;
  isa_extended_written = false;
  wrote_event_record_group = false;
  wrote_page_table_walk = false;
  wrote_reg = false;
  force_32bit_events = false;
}

-- `STFWriterBase::open`, once the file is open.
unfoldable pub open_writer : StfWriter → Result WriterError StfWriter
open_writer w = do
  assert (not w.is_open) WriterError.already_open
  w1 ← write (Record.identifier ident_str) (record w { stream = new_stream; is_open = true })
  w2 ← write (Record.version stf_cur_version_major stf_cur_version_minor) w1
  ok (record w2 { header_started = true })

abbrev pub is_riscv64 : StfWriter → Bool
is_riscv64 w = elim w.isa [
  | some Isa.riscv ↦ elim w.initial_iem [ some InstIem.rv64 ↦ true | _ ↦ false ]
  | _ ↦ false
]

unfoldable pub all_written : StfWriter → Bool
all_written w =
    w.header_comments_written
    && w.isa_written
    && w.initial_iem_written
    && w.initial_pc_written
    && w.trace_info_records_written
    && w.trace_features_written
    && (w.vlen_config_written || not (is_some w.vlen_config))

-- `STFWriter::finalizeHeader`, with that of STFWriterBase at its end. The assertion that the header
-- was started has an error of its own.
unfoldable pub finalize_header : StfWriter → Result WriterError StfWriter
finalize_header w = if w.header_finalized then ok w else (do
  assert w.header_started WriterError.header_not_started
  let featured =
      if not w.force_32bit_events && is_riscv64 w
      then set_trace_feature stf_contain_event64 w
      else w
  flushed ← if all_written featured then ok featured else flush_header featured
  w' ← write Record.end_header flushed
  ok (record w' { header_finalized = true }))

-- `STFWriter::close` and `STFWriterBase::close`: `initial_process_id` and what was written last but
-- for `last_desc` stay.
unfoldable pub close : StfWriter → StfWriter
close w = record w {
  is_open = false;
  isa = none;
  isa_written = false;
  initial_iem = none;
  initial_iem_written = false;
  initial_pc = none;
  initial_pc_written = false;
  vlen_config = none;
  vlen_config_written = false;
  isa_extended = none;
  isa_extended_written = false;
  last_desc = encoded Descriptor.reserved;
  header_comments = [];
  header_comments_written = false;
  trace_info_records = [];
  trace_info_records_written = false;
  trace_features = none;
  trace_features_written = false;
  header_started = false;
  header_finalized = false;
}

-- What stays of a writer when it is closed and opened again: its process ID, whether that was
-- written, and whether events have 32 bits. All else is as in a new writer.
pub open_writer-close :
    (w : StfWriter)
    → open_writer (close w)
      ≡ ok (record new_writer {
        stream = record new_stream {
          written =
              Record.identifier ident_str
              ∷ Record.version stf_cur_version_major stf_cur_version_minor
              ∷ [];
        };
        is_open = true;
        header_started = true;
        last_desc = 2;
        initial_process_id = w.initial_process_id;
        initial_process_id_written = w.initial_process_id_written;
        force_32bit_events = w.force_32bit_events;
      })
unfolding open_writer close write pack in_order check_placement encoded is_instruction_record
open_writer-close w = refl
