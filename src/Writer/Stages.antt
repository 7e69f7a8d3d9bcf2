-- ===== src/Writer/Stages.antt =====
-- The writer after each of the nine blocks of `flushHeader` in lib/stf_writer.cpp.
use stf_lib.Common.{ℕ, ◌≤◌, ◌≡◌, true, false, not, ◌==◌, if◌then◌else◌}
use stf_lib.Common.{bit_and, [], ◌∷◌, ◌++◌, map, Option, none, some}
use stf_lib.Branch.Decoder.{InstIem}
use stf_lib.Record.{Record, Isa, stf_contain_event64}
use stf_lib.Writer.{StfWriter}
use stf_lib.Writer.Header.{is_empty, is_some, features_or_new}
use stf_lib.Writer.Blocks.{emit, option_records}

abbrev pub comments_done : StfWriter → StfWriter
comments_done w = record (emit (map Record.comment w.header_comments) 3 w) {
  header_comments_written = not (is_empty w.header_comments);
}

abbrev pub isa_done : Isa → StfWriter → StfWriter
isa_done i w = record (emit (Record.isa i ∷ []) 4 w) { isa_written = true }

abbrev pub iem_done : InstIem → StfWriter → StfWriter
iem_done m w = record (emit (Record.inst_iem m ∷ []) 5 w) { initial_iem_written = true }

abbrev pub trace_info_done : StfWriter → StfWriter
trace_info_done w = record (emit (map Record.trace_info w.trace_info_records) 6 w) {
  trace_info_records_written = true;
}

abbrev pub features_done : StfWriter → StfWriter
features_done w =
    let features = features_or_new w.trace_features in
    record w {
      stream = record (w.stream) {
        written = w.stream.written ++ (Record.trace_info_feature features ∷ []);
        has_32bit_events = bit_and features stf_contain_event64 == 0;
      };
      last_desc = 7;
      trace_features = some features;
      trace_features_written = true;
    }

abbrev pub process_id_done : StfWriter → StfWriter
process_id_done w = record (emit (option_records Record.process_id_ext w.initial_process_id) 8 w) {
  initial_process_id_written = is_some w.initial_process_id;
}

abbrev pub pc_done : StfWriter → StfWriter
pc_done w = record (emit (option_records Record.force_pc w.initial_pc) 9 w) {
  initial_pc_written = is_some w.initial_pc;
}

abbrev pub vlen_done : StfWriter → StfWriter
vlen_done w = record w {
  stream = record (w.stream) {
    written = w.stream.written ++ option_records Record.vlen_config w.vlen_config;
    vlen = features_or_new w.vlen_config;
  };
  last_desc = if is_some w.vlen_config then 10 else w.last_desc;
  vlen_config_written = is_some w.vlen_config;
}

abbrev pub isa_extended_done : StfWriter → StfWriter
isa_extended_done w = record (emit (option_records Record.isa_extended w.isa_extended) 13 w) {
  isa_extended_written = is_some w.isa_extended;
}

-- No block has been written.
abbrev pub IsUnwritten : StfWriter → Type 0
IsUnwritten w =
    (w.header_comments_written ≡ false)
    × (w.isa_written ≡ false)
    × (w.initial_iem_written ≡ false)
    × (w.trace_info_records_written ≡ false)
    × (w.trace_features_written ≡ false)
    × (w.initial_process_id_written ≡ false)
    × (w.initial_pc_written ≡ false)
    × (w.vlen_config_written ≡ false)
    × (w.isa_extended_written ≡ false)

-- The vector length that a stream takes.
abbrev pub VlenFits : Option ℕ → Type 0
VlenFits none = Unit
VlenFits (some v) = 64 ≤ v
