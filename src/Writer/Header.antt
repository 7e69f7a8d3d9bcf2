-- ===== src/Writer/Header.antt =====
-- The setters of lib/stf_writer.cpp and lib/stf_writer_base.cpp, and `flushHeader`, which is one
-- function for each of its nine blocks.
use stf_lib.Common.{ℕ, Bool, true, false, not, ◌&&◌, ◌||◌, ◌==◌, if◌then◌else◌}
use stf_lib.Common.{bit_or, bit_and, List, [], ◌∷◌, ◌++◌, map, Option, none, some}
use stf_lib.Common.{Result, ok, assert, ◌>>=◌, ◌>>◌, ◌-◌, ◌^◌}
use stf_lib.Branch.Decoder.{InstIem}
use stf_lib.Record.{Record, Isa, TraceInfo, ProcessId, Text, stf_contain_event64}
use stf_lib.Writer.{StfWriter, WriterError, write, write_all}

abbrev pub is_some {ℓ} : {A : Type ℓ} → Option A → Bool
is_some none = false
is_some (some a) = true

abbrev pub is_empty {ℓ} : {A : Type ℓ} → List A → Bool
is_empty [] = true
is_empty (x ∷ xs) = false

-- The setters.
unfoldable pub set_isa : Isa → StfWriter → StfWriter
set_isa i w = record w { isa = some i }

unfoldable pub set_header_iem : InstIem → StfWriter → StfWriter
set_header_iem m w = record w { initial_iem = some m }

unfoldable pub set_header_pc : ℕ → StfWriter → StfWriter
set_header_pc pc w = record w { initial_pc = some pc }

-- A VLenConfigRecord refuses 0.
unfoldable pub set_vlen : ℕ → StfWriter → Result WriterError StfWriter
set_vlen vlen w =
    assert (not (vlen == 0)) WriterError.invalid_vlen >> ok (record w { vlen_config = some vlen })

unfoldable pub set_header_process_id : ProcessId → StfWriter → StfWriter
set_header_process_id p w = record w { initial_process_id = some p }

unfoldable pub set_isa_extended_info : Text → StfWriter → StfWriter
set_isa_extended_info info w = record w { isa_extended = if is_empty info then none else some info }

unfoldable pub add_header_comment : Text → StfWriter → StfWriter
add_header_comment c w = record w { header_comments = w.header_comments ++ (c ∷ []) }

unfoldable pub add_header_comments : List Text → StfWriter → StfWriter
add_header_comments cs w = record w { header_comments = w.header_comments ++ cs }

unfoldable pub add_trace_info : TraceInfo → StfWriter → StfWriter
add_trace_info i w = record w { trace_info_records = w.trace_info_records ++ (i ∷ []) }

unfoldable pub add_trace_info_records : List TraceInfo → StfWriter → StfWriter
add_trace_info_records [] w = w
add_trace_info_records (i ∷ is) w = add_trace_info_records is (add_trace_info i w)

unfoldable pub set_trace_feature : ℕ → StfWriter → StfWriter
set_trace_feature feature w = record w {
  trace_features = elim w.trace_features [
    | none ↦ some feature
    | some features ↦ some (bit_or features feature)
  ];
}

-- `disableTraceFeature`, of STFWriter and then of STFWriterBase; `& ~feature` over 64 bits.
unfoldable pub disable_trace_feature : ℕ → StfWriter → StfWriter
disable_trace_feature feature w = record w {
  force_32bit_events = if feature == stf_contain_event64 then true else w.force_32bit_events;
  trace_features = elim w.trace_features [
    | none ↦ none
    | some features ↦ some (bit_and features (2 ^ 64 - 1 - feature))
  ];
}

-- The blocks of `flushHeader`, in their order.
unfoldable pub flush_comments : StfWriter → Result WriterError StfWriter
flush_comments w =
    if not w.header_comments_written && not (is_empty w.header_comments)
    then (do
      assert
          (not (
            w.isa_written || w.initial_iem_written || w.initial_pc_written
            || w.trace_info_records_written || w.trace_features_written))
          WriterError.comments_not_first
      w' ← write_all (map Record.comment w.header_comments) w
      ok (record w' { header_comments_written = true }))
    else ok w

unfoldable pub flush_isa : StfWriter → Result WriterError StfWriter
flush_isa w = elim w.isa [
  | none ↦ ok w
  | some i ↦ if w.isa_written then ok w else (do
    assert
        (not (
          w.initial_iem_written || w.initial_pc_written || w.trace_info_records_written
          || w.trace_features_written))
        WriterError.isa_too_late
    w' ← write (Record.isa i) w
    ok (record w' { isa_written = true }))
]

unfoldable pub flush_iem : StfWriter → Result WriterError StfWriter
flush_iem w = elim w.initial_iem [
  | none ↦ ok w
  | some m ↦ if w.initial_iem_written then ok w else (do
    assert w.isa_written WriterError.isa_missing
    assert (not (w.initial_pc_written || w.trace_info_records_written || w.trace_features_written))
        WriterError.iem_too_late
    w' ← write (Record.inst_iem m) w
    ok (record w' { initial_iem_written = true }))
]

unfoldable pub flush_trace_info : StfWriter → Result WriterError StfWriter
flush_trace_info w =
    if not w.trace_info_records_written && not (is_empty w.trace_info_records)
    then (do
      assert w.isa_written WriterError.isa_missing
      assert w.initial_iem_written WriterError.iem_missing
      assert (not w.initial_pc_written) WriterError.trace_info_too_late
      assert (not w.trace_features_written) WriterError.trace_info_too_late
      w' ← write_all (map Record.trace_info w.trace_info_records) w
      ok (record w' { trace_info_records_written = true }))
    else ok w

-- `make<TraceInfoFeatureRecord>()` has no feature.
abbrev pub features_or_new : Option ℕ → ℕ
features_or_new none = 0
features_or_new (some f) = f

unfoldable pub flush_features : StfWriter → Result WriterError StfWriter
flush_features w = if w.trace_features_written then ok w else (do
  assert w.isa_written WriterError.isa_missing
  assert w.initial_iem_written WriterError.iem_missing
  assert w.trace_info_records_written WriterError.trace_info_missing
  assert (not w.initial_pc_written) WriterError.features_too_late
  let features = features_or_new w.trace_features
  w' ← write (Record.trace_info_feature features) (record w { trace_features = some features })
  ok (record w' { trace_features_written = true }))

unfoldable pub flush_process_id : StfWriter → Result WriterError StfWriter
flush_process_id w = elim w.initial_process_id [
  | none ↦ ok w
  | some p ↦ if w.initial_process_id_written then ok w else (do
    w' ← write (Record.process_id_ext p) w
    ok (record w' { initial_process_id_written = true }))
]

unfoldable pub flush_pc : StfWriter → Result WriterError StfWriter
flush_pc w = elim w.initial_pc [
  | none ↦ ok w
  | some pc ↦ if w.initial_pc_written then ok w else (do
    assert w.isa_written WriterError.isa_missing
    assert w.initial_iem_written WriterError.iem_missing
    assert w.trace_info_records_written WriterError.trace_info_missing
    assert w.trace_features_written WriterError.features_missing
    w' ← write (Record.force_pc pc) w
    ok (record w' { initial_pc_written = true }))
]

unfoldable pub flush_vlen : StfWriter → Result WriterError StfWriter
flush_vlen w = elim w.vlen_config [
  | none ↦ ok w
  | some v ↦
      if w.vlen_config_written
      then ok w
      else (do w' ← write (Record.vlen_config v) w; ok (record w' { vlen_config_written = true }))
]

unfoldable pub flush_isa_extended : StfWriter → Result WriterError StfWriter
flush_isa_extended w = elim w.isa_extended [
  | none ↦ ok w
  | some t ↦
      if w.isa_extended_written
      then ok w
      else (do w' ← write (Record.isa_extended t) w; ok (record w' { isa_extended_written = true }))
]

-- `STFWriter::flushHeader`
unfoldable pub flush_header : StfWriter → Result WriterError StfWriter
flush_header w = do
  assert (not w.header_finalized) WriterError.header_finalized
  w1 ← flush_comments w
  w2 ← flush_isa w1
  w3 ← flush_iem w2
  w4 ← flush_trace_info w3
  w5 ← flush_features w4
  w6 ← flush_process_id w5
  w7 ← flush_pc w6
  w8 ← flush_vlen w7
  flush_isa_extended w8
