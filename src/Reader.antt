-- ===== src/Reader.antt =====
-- The header of an instruction trace as it is read: `readHeader_`, `validateHeader_`, the getters,
-- `copyHeader` and `close` of lib/stf_reader.cpp, over lib/stf_reader_base.cpp. The records left in
-- the stream are passed along as a list; its end is the EOFException that `readHeader_` catches. A
-- record with an unknown descriptor, the file, and the trace start that the stream keeps for a
-- rewind are not modelled.
pub mod Blocks
pub mod RoundTrip
pub mod Bytes
pub mod Comments
use stf_lib.Common.{
  ℕ, zero, suc, ◌+◌, ◌-◌, ◌^◌, ◌≤◌, ◌<◌, ◌≡◌, ◌≢◌, ◌⊎◌, inl, inr, refl, sym, ap, ◌∙◌, arith, Bool,
  true, false, not, ◌&&◌, ◌||◌, leb, ltb, ◌==◌, if◌then◌else◌,
}
use stf_lib.Common.{
  bit_and, bit_or, List, [], ◌∷◌, ◌++◌, map, Option, none, some, Result, ok, err, ◌>>=◌, ◌>>◌,
  assert,
}
use stf_lib.Descriptor.{Descriptor, encoded, is_instruction_record}
use stf_lib.Branch.Decoder.{InstIem}
use stf_lib.Record.{
  Record, Text, Isa, TraceInfo, ProcessId, Body, get_id, ident_str, stf_contain_event64,
}
use stf_lib.Writer.{StfWriter, WriterError}
use stf_lib.Writer.Header.{is_some, is_empty, set_isa, set_header_iem, set_header_pc, set_vlen}
use stf_lib.Writer.Header.{
  set_isa_extended_info, add_header_comments, add_trace_info_records, set_trace_feature,
}

pub data ReaderError : Type 0 where
  already_open not_identified version_missing incomplete_header transaction_trace : ReaderError
  unexpected_record unreachable : ReaderError
  multiple_isa multiple_iem multiple_force_pc multiple_features : ReaderError
  multiple_process_id multiple_vlen multiple_isa_extended : ReaderError
  isa_missing iem_missing force_pc_missing trace_info_missing features_missing : ReaderError
  vlen_set_twice vlen_too_small invalid_vlen null_handle : ReaderError
  copy_failed : WriterError → ReaderError

pub record StfReader : Type 0 where
  pub is_open : Bool
  pub version : Option (ℕ × ℕ)
  pub header_comments : List Text
  pub header_comments_str : List Text
  pub trace_info_records : List TraceInfo
  pub trace_features : Option ℕ
  pub isa : Option Isa
  pub initial_iem : Option InstIem
  pub initial_pc : Option ℕ
  pub initial_process_id : Option ProcessId
  pub vlen_config : Option ℕ
  pub isa_extended : Option Text
  pub stream_vlen : ℕ
  pub stream_has_32bit_events : Bool
  pub stream_initial_pc : ℕ

abbrev pub new_reader : StfReader
new_reader = record {
  is_open = false;
  version = none;
  header_comments = [];
  header_comments_str = [];
  trace_info_records = [];
  trace_features = none;
  isa = none;
  initial_iem = none;
  initial_pc = none;
  initial_process_id = none;
  vlen_config = none;
  isa_extended = none;
  stream_vlen = 0;
  stream_has_32bit_events = false;
  stream_initial_pc = 0;
}

-- What `unpack` does to the stream, which is the mirror of `pack`.
unfoldable pub unpack : Record → StfReader → Result ReaderError StfReader
unpack (Record.vlen_config vlen) rd = do
  assert (rd.stream_vlen == 0) vlen_set_twice
  assert (leb 64 vlen) vlen_too_small
  assert (not (vlen == 0)) invalid_vlen
  ok (record rd { stream_vlen = vlen })
unpack (Record.trace_info_feature f) rd =
    ok (record rd { stream_has_32bit_events = bit_and f stf_contain_event64 == 0 })
unpack rec rd = ok rd

-- The switch of `readHeader_` on a record other than the end of the header.
unfoldable pub accept : Record → StfReader → Result ReaderError StfReader
accept (Record.comment c) rd = ok (record rd { header_comments = rd.header_comments ++ (c ∷ []) })
accept (Record.isa i) rd =
    assert (not (is_some rd.isa)) multiple_isa >> ok (record rd { isa = some i })
accept (Record.inst_iem m) rd =
    assert (not (is_some rd.initial_iem)) multiple_iem >> ok (record rd { initial_iem = some m })
accept (Record.force_pc pc) rd =
    assert (not (is_some rd.initial_pc)) multiple_force_pc
    >> ok (record rd { initial_pc = some pc })
accept (Record.trace_info i) rd =
    ok (record rd { trace_info_records = rd.trace_info_records ++ (i ∷ []) })
accept (Record.trace_info_feature f) rd =
    assert (not (is_some rd.trace_features)) multiple_features
    >> ok (record rd { trace_features = some f })
accept (Record.process_id_ext p) rd =
    assert (not (is_some rd.initial_process_id)) multiple_process_id
    >> ok (record rd { initial_process_id = some p })
accept (Record.vlen_config v) rd =
    assert (not (is_some rd.vlen_config)) multiple_vlen >> ok (record rd { vlen_config = some v })
accept (Record.isa_extended t) rd =
    assert (not (is_some rd.isa_extended)) multiple_isa_extended
    >> ok (record rd { isa_extended = some t })
accept Record.end_header rd = ok rd
accept (Record.identifier t) rd = err unexpected_record
accept (Record.version major minor) rd = err unexpected_record
accept (Record.body (Body.protocol_id contents)) rd = err transaction_trace
accept (Record.body (Body.clock contents)) rd = err transaction_trace
accept (Record.body (Body.transaction contents)) rd = err transaction_trace
accept (Record.body (Body.transaction_dependency contents)) rd = err transaction_trace
accept (Record.body contents) rd = err unexpected_record

-- The loop of `readHeader_`.
unfoldable pub read_records : List Record → StfReader → Result ReaderError (List Record × StfReader)
read_records [] rd = err incomplete_header
read_records (Record.end_header ∷ rest) rd = ok (rest, rd)
read_records (rec ∷ rest) rd =
    unpack rec rd >>= λ rd1. accept rec rd1 >>= λ rd2. read_records rest rd2

-- `validateHeader_` of STFReader, with that of STFReaderBase.
unfoldable pub validate_header : StfReader → Result ReaderError StfReader
validate_header rd = do
  assert (is_some rd.isa) isa_missing
  assert (is_some rd.initial_iem) iem_missing
  assert (is_some rd.initial_pc) force_pc_missing
  assert (not (is_empty rd.trace_info_records)) trace_info_missing
  assert (is_some rd.trace_features) features_missing
  ok (record rd {
    stream_initial_pc = elim rd.initial_pc [ none ↦ rd.stream_initial_pc | some pc ↦ pc ];
  })

-- `STFIdentifierRecord::isValid`
unfoldable pub same_text : Text → Text → Bool
same_text [] [] = true
same_text [] (y ∷ ys) = false
same_text (x ∷ xs) [] = false
same_text (x ∷ xs) (y ∷ ys) = let rest = same_text xs ys in x == y && rest

abbrev pub is_identifier : Record → Bool
is_identifier (Record.identifier t) = same_text t ident_str
is_identifier rec = false

-- `readHeader_` from the second record on.
unfoldable pub read_version : List Record → StfReader → Result ReaderError (List Record × StfReader)
read_version [] rd = err incomplete_header
read_version (Record.version major minor ∷ rest) rd = do
  (left, read) ← read_records rest (record rd { version = some (major, minor) })
  valid ← validate_header read
  ok (left, valid)
read_version (rec ∷ rest) rd = unpack rec rd >>= λ rd1. err version_missing

-- `readHeader_`
unfoldable pub read_header : List Record → StfReader → Result ReaderError (List Record × StfReader)
read_header [] rd = err incomplete_header
read_header (rec ∷ rest) rd = do
  rd1 ← unpack rec rd
  assert (is_identifier rec) not_identified
  read_version rest rd1

-- `STFReaderBase::open` of a file that holds the given records.
unfoldable pub open_reader : List Record → StfReader → Result ReaderError (List Record × StfReader)
open_reader records rd = do
  assert (not rd.is_open) already_open
  read_header records (record rd {
    is_open = true;
    stream_vlen = 0;
    stream_has_32bit_events = false;
    stream_initial_pc = 0;
  })

-- `close`: the comments as strings stay.
unfoldable pub close_reader : StfReader → StfReader
close_reader rd = record rd {
  is_open = false;
  isa = none;
  initial_iem = none;
  initial_pc = none;
  initial_process_id = none;
  vlen_config = none;
  isa_extended = none;
  version = none;
  header_comments = [];
  trace_info_records = [];
  trace_features = none;
}

-- `getHeaderCommentsString`, which keeps what it returns.
unfoldable pub get_header_comments_string : StfReader → List Text × StfReader
get_header_comments_string rd =
    let strings =
      if not (is_empty rd.header_comments) && is_empty rd.header_comments_str
      then rd.header_comments
      else rd.header_comments_str in
    (strings, record rd { header_comments_str = strings })

-- `getInitialHardwareTID`, `getInitialPID` and `getInitialTID`.
unfoldable pub get_initial_ids : StfReader → ℕ × ℕ × ℕ
get_initial_ids rd = elim rd.initial_process_id [
  | none ↦ (0, 0, 0)
  | some p ↦ (p.hw_thread_id, p.pid, p.tid)
]

-- The contents of a handle, which the code does not check.
abbrev pub deref {ℓ} : {A : Type ℓ} → Option A → Result ReaderError A
deref none = err null_handle
deref (some a) = ok a

-- An error of the writer is one of the copy.
abbrev pub copy_result : Result WriterError StfWriter → Result ReaderError StfWriter
copy_result (ok w) = ok w
copy_result (err e) = err (copy_failed e)

-- `copyHeader`
unfoldable pub copy_header : StfReader → StfWriter → Result ReaderError StfWriter
copy_header rd w = do
  i ← deref rd.isa
  m ← deref rd.initial_iem
  pc ← deref rd.initial_pc
  features ← deref rd.trace_features
  let w1 =
      set_header_pc pc (set_header_iem m (set_isa i (add_header_comments rd.header_comments w)))
  let w2 = set_trace_feature features (add_trace_info_records rd.trace_info_records w1)
  let w3 : StfWriter = elim rd.isa_extended [
    | none ↦ w2
    | some info ↦ set_isa_extended_info info w2
  ]
  (if rd.stream_vlen == 0
      then ok w3
      else elim (set_vlen rd.stream_vlen w3) [ ok w4 ↦ ok w4 | err e ↦ err (copy_failed e) ])
