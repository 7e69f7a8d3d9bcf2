-- ===== src/Reader/RoundTrip.antt =====
-- `STFReaderBase::open` of lib/stf_reader_base.cpp on what `finalizeHeader` of lib/stf_writer.cpp
-- leaves.
use stf_lib.Common.{
  option_cases, ◌≡◌, inl, inr, refl, ap, ◌∙◌, arith, Bool, true, false, ◌==◌, if◌then◌else◌,
}
use stf_lib.Common.{bit_and, List, [], ◌∷◌, ◌++◌, map, some, Result, ok, err, ◌>>=◌}
use stf_lib.Branch.Decoder.{InstIem}
use stf_lib.Record.{Record, Isa, ident_str, stf_contain_event64}
use stf_lib.Writer.{StfWriter}
use stf_lib.Writer.Header.{is_some, is_empty, features_or_new}
use stf_lib.Writer.Blocks.{option_records}
use stf_lib.Writer.Stages.{VlenFits}
use stf_lib.Reader.{
  StfReader, ReaderError, new_reader, unpack, accept, read_records, validate_header, read_version,
  read_header, open_reader, same_text,
}
use mathlib.Core.List.{append_assoc}
use stf_lib.Version.{stf_cur_version_major, stf_cur_version_minor}
use stf_lib.Writer.Contents.{header_records, header_features, finalize_header-written}
use stf_lib.Writer.Finalize.{IsReady}
use stf_lib.Writer.Life.{finalize_header}
use stf_lib.Reader.Blocks.{
  read_records-comments, read_records-trace_info, read_records-process_id, read_records-force_pc,
  read_records-isa_extended, read_records-vlen,
}

-- The reader of a trace that begins with the header of a writer.
abbrev pub reader_of : Isa → InstIem → StfWriter → StfReader
reader_of i m w = record new_reader {
  is_open = true;
  version = some (stf_cur_version_major, stf_cur_version_minor);
  header_comments = w.header_comments;
  trace_info_records = w.trace_info_records;
  trace_features = some (header_features i m w);
  isa = some i;
  initial_iem = some m;
  initial_pc = w.initial_pc;
  initial_process_id = w.initial_process_id;
  vlen_config = w.vlen_config;
  isa_extended = w.isa_extended;
  stream_vlen = features_or_new w.vlen_config;
  stream_has_32bit_events = bit_and (header_features i m w) stf_contain_event64 == 0;
}

-- The header and what follows it, with the parts in the order in which they are read.
abbrev header_then : Isa → InstIem → StfWriter → List Record → List Record
header_then i m w rest =
    map Record.comment w.header_comments
    ++ (Record.isa i
        ∷ Record.inst_iem m
        ∷ (map Record.trace_info w.trace_info_records
            ++ (Record.trace_info_feature (header_features i m w)
                ∷ (option_records Record.process_id_ext w.initial_process_id
                    ++ (option_records Record.force_pc w.initial_pc
                        ++ (option_records Record.vlen_config w.vlen_config
                            ++ (option_records Record.isa_extended w.isa_extended
                                ++ (Record.end_header ∷ rest))))))))

header_records-append :
    (i : Isa) (m : InstIem) (w : StfWriter) (rest : List Record)
    → header_records i m w ++ rest ≡ header_then i m w rest
header_records-append i m w rest = simp append_assoc

abbrev opened : StfReader
opened = record new_reader {
  is_open = true;
  version = some (stf_cur_version_major, stf_cur_version_minor);
}

read_records-header_then :
    (i : Isa) (m : InstIem) (w : StfWriter) (rest : List Record)
    → VlenFits (w.vlen_config)
    → read_records (header_then i m w rest) opened ≡ ok (rest, reader_of i m w)
unfolding read_records unpack accept
read_records-header_then i m w rest fits =
    read_records-comments (w.header_comments) _ opened
    ∙ read_records-trace_info (w.trace_info_records) _ _
    ∙ read_records-process_id _ _ (w.initial_process_id) refl
    ∙ read_records-force_pc _ _ (w.initial_pc) refl
    ∙ read_records-vlen _ _ (w.vlen_config) fits refl refl
    ∙ read_records-isa_extended _ _ (w.isa_extended) refl
    ∙ refl

-- A trace whose records are those of `records` behind the identifier and the version.
abbrev pub trace : List Record → List Record
trace records =
    Record.identifier ident_str
    ∷ Record.version stf_cur_version_major stf_cur_version_minor
    ∷ records

open_reader-trace :
    (records : List Record)
    → open_reader (trace records) new_reader ≡ (
        read_records records opened >>= λ found.
        validate_header (found.1) >>= λ valid. ok (found.0, valid))
unfolding open_reader read_header read_version unpack same_text
open_reader-trace records = refl

validate_header-reader_of :
    (i : Isa) (m : InstIem) (w : StfWriter)
    → is_empty w.trace_info_records ≡ false
    → validate_header (reader_of i m w) ≡ (
        if is_some w.initial_pc
        then (ok (record (reader_of i m w) { stream_initial_pc = features_or_new w.initial_pc }))
        else err ReaderError.force_pc_missing)
unfolding validate_header
validate_header-reader_of i m w h = elim (option_cases (w.initial_pc)) [
  | inl e ↦ ground (arith, e, h)
  | inr (pc, e) ↦ ground (arith, e, h)
]

-- What the reader makes of a trace with the writer's header.
abbrev pub opened_reader :
    Isa → InstIem → StfWriter → List Record → Result ReaderError (List Record × StfReader)
opened_reader i m w rest =
    if is_some w.initial_pc
    then (ok (rest, record (reader_of i m w) { stream_initial_pc = features_or_new w.initial_pc }))
    else err ReaderError.force_pc_missing

bind_if :
    (b : Bool) (valid : StfReader) (e : ReaderError) (rest : List Record)
    → (◌>>=◌ {B = List Record × StfReader}
        (if b then ok valid else err e)
        (λ (v : StfReader). ok (rest, v)))
      ≡ (if b then ok (rest, valid) else err e)
bind_if true valid e rest = refl
bind_if false valid e rest = refl

-- A writer that wrote only the identifier and the version and is ready (it has an ISA, an IEM
-- and a trace info, its vector length, if any, is at least 64, and nothing of the header is
-- written) finalizes its header. If the header has a PC, a new reader that opens the result,
-- whatever records follow the header, finds every value that the writer had, the features with
-- 64-bit events for an RV64 trace, and then what follows. If it has no PC, the reader refuses
-- the trace.
pub open_reader-finalize_header :
    (i : Isa) (m : InstIem) (w : StfWriter) (rest : List Record)
    → IsReady i m w
    → w.stream.written ≡ trace []
    → (w' : StfWriter) × (finalize_header w ≡ ok w')
      × (open_reader (w'.stream.written ++ rest) new_reader ≡ opened_reader i m w rest)
open_reader-finalize_header i m w rest h e =
    let (w', writes, final, contents) = finalize_header-written i m w h in
    let records : w'.stream.written ++ rest ≡ trace (header_then i m w rest) =
      ap (λ (t : List Record). t ++ rest)
        (contents ∙ ap (λ (t : List Record). t ++ header_records i m w) e)
      ∙ ap trace (header_records-append i m w rest) in
    (
      w',
      writes,
      ap (λ (t : List Record). open_reader t new_reader) records
          ∙ open_reader-trace (header_then i m w rest)
          ∙ rw (read_records-header_then i m w rest h.vlen_fits) (
              rw (validate_header-reader_of i m w h.has_trace_info)
                (bind_if (is_some (w.initial_pc)) _ _ rest)),
    )
