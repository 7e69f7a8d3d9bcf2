-- ===== src/Reader/Comments.antt =====
-- The header comments as strings, `getHeaderCommentsString` of lib/stf_reader_base.cpp, over the
-- life of a reader.
use stf_lib.Common.{result_cases, ◌≡◌, inl, inr, refl, sym, arith, false}
use stf_lib.Common.{List, [], ◌∷◌, some, Result, ok, err, ◌>>=◌}
use stf_lib.Record.{Record, Text}
use stf_lib.Writer.Header.{is_empty}
use stf_lib.Reader.{
  StfReader, ReaderError, unpack, accept, read_records, validate_header, read_version, read_header,
  open_reader, close_reader, get_header_comments_string,
}
use stf_lib.Record.{Body}

unpack-strings :
    (r : Record) (rd : StfReader) {rd' : StfReader}
    → unpack r rd ≡ ok rd'
    → rd'.header_comments_str ≡ rd.header_comments_str
unfolding unpack
unpack-strings (Record.identifier t) rd e = ground arith
unpack-strings (Record.version a b) rd e = ground arith
unpack-strings (Record.comment t) rd e = ground arith
unpack-strings (Record.isa i) rd e = ground arith
unpack-strings (Record.inst_iem m) rd e = ground arith
unpack-strings (Record.trace_info i) rd e = ground arith
unpack-strings (Record.trace_info_feature f) rd e = ground arith
unpack-strings (Record.process_id_ext p) rd e = ground arith
unpack-strings (Record.force_pc pc) rd e = ground arith
unpack-strings (Record.vlen_config v) rd e = ground arith
unpack-strings (Record.isa_extended t) rd e = ground arith
unpack-strings Record.end_header rd e = ground arith
unpack-strings (Record.body contents) rd e = ground arith

accept-strings :
    (r : Record) (rd : StfReader) {rd' : StfReader}
    → accept r rd ≡ ok rd'
    → rd'.header_comments_str ≡ rd.header_comments_str
unfolding accept
accept-strings (Record.identifier t) rd e = ground arith
accept-strings (Record.version a b) rd e = ground arith
accept-strings (Record.comment t) rd e = ground arith
accept-strings (Record.isa i) rd e = ground arith
accept-strings (Record.inst_iem m) rd e = ground arith
accept-strings (Record.trace_info i) rd e = ground arith
accept-strings (Record.trace_info_feature f) rd e = ground arith
accept-strings (Record.process_id_ext p) rd e = ground arith
accept-strings (Record.force_pc pc) rd e = ground arith
accept-strings (Record.vlen_config v) rd e = ground arith
accept-strings (Record.isa_extended t) rd e = ground arith
accept-strings Record.end_header rd e = ground arith
accept-strings (Record.body (Body.inst_pc_target contents)) rd e = ground arith
accept-strings (Record.body (Body.inst_reg contents)) rd e = ground arith
accept-strings (Record.body (Body.inst_ready_reg contents)) rd e = ground arith
accept-strings (Record.body (Body.page_table_walk contents)) rd e = ground arith
accept-strings (Record.body (Body.inst_mem_access contents)) rd e = ground arith
accept-strings (Record.body (Body.inst_mem_content contents)) rd e = ground arith
accept-strings (Record.body (Body.bus_master_access contents)) rd e = ground arith
accept-strings (Record.body (Body.bus_master_content contents)) rd e = ground arith
accept-strings (Record.body (Body.event contents)) rd e = ground arith
accept-strings (Record.body (Body.event_pc_target contents)) rd e = ground arith
accept-strings (Record.body (Body.inst_microop contents)) rd e = ground arith
accept-strings (Record.body (Body.inst_opcode32 contents)) rd e = ground arith
accept-strings (Record.body (Body.inst_opcode16 contents)) rd e = ground arith
accept-strings (Record.body (Body.protocol_id contents)) rd e = ground arith
accept-strings (Record.body (Body.clock contents)) rd e = ground arith
accept-strings (Record.body (Body.transaction contents)) rd e = ground arith
accept-strings (Record.body (Body.transaction_dependency contents)) rd e = ground arith

-- What an operation that reads leaves.
abbrev Keeps : Result ReaderError (List Record × StfReader) → List Text → Type 0
Keeps (ok (rest, rd)) strings = rd.header_comments_str ≡ strings
Keeps (err e) strings = Unit

abbrev go_on : List Record → Record → StfReader → Result ReaderError (List Record × StfReader)
go_on rest r rd = unpack r rd >>= λ rd1. accept r rd1 >>= λ rd2. read_records rest rd2

go_on-Keeps :
    (rest : List Record) (r : Record) (rd : StfReader)
    → ((rd2 : StfReader) → Keeps (read_records rest rd2) rd2.header_comments_str)
    → Keeps (go_on rest r rd) rd.header_comments_str
go_on-Keeps rest r rd keeps = elim (result_cases (unpack r rd)) [
  | inl (rd1, u) ↦ elim (result_cases (accept r rd1)) [
    | inl (rd2, a) ↦
        rw u (rw a (rw (sym (unpack-strings r rd u), sym (accept-strings r rd1 a)) (keeps rd2)))
    | inr (e, a) ↦ rw u (rw a tt)
  ]
  | inr (e, u) ↦ rw u tt
]

read_records-Keeps :
    (records : List Record) (rd : StfReader)
    → Keeps (read_records records rd) rd.header_comments_str
unfolding read_records
read_records-Keeps [] rd = tt
read_records-Keeps (Record.end_header ∷ rest) rd = refl
read_records-Keeps (Record.identifier t ∷ rest) rd =
    go_on-Keeps rest (Record.identifier t) rd (read_records-Keeps rest)
read_records-Keeps (Record.version a b ∷ rest) rd =
    go_on-Keeps rest (Record.version a b) rd (read_records-Keeps rest)
read_records-Keeps (Record.comment t ∷ rest) rd =
    go_on-Keeps rest (Record.comment t) rd (read_records-Keeps rest)
read_records-Keeps (Record.isa i ∷ rest) rd =
    go_on-Keeps rest (Record.isa i) rd (read_records-Keeps rest)
read_records-Keeps (Record.inst_iem m ∷ rest) rd =
    go_on-Keeps rest (Record.inst_iem m) rd (read_records-Keeps rest)
read_records-Keeps (Record.trace_info i ∷ rest) rd =
    go_on-Keeps rest (Record.trace_info i) rd (read_records-Keeps rest)
read_records-Keeps (Record.trace_info_feature f ∷ rest) rd =
    go_on-Keeps rest (Record.trace_info_feature f) rd (read_records-Keeps rest)
read_records-Keeps (Record.process_id_ext p ∷ rest) rd =
    go_on-Keeps rest (Record.process_id_ext p) rd (read_records-Keeps rest)
read_records-Keeps (Record.force_pc pc ∷ rest) rd =
    go_on-Keeps rest (Record.force_pc pc) rd (read_records-Keeps rest)
read_records-Keeps (Record.vlen_config v ∷ rest) rd =
    go_on-Keeps rest (Record.vlen_config v) rd (read_records-Keeps rest)
read_records-Keeps (Record.isa_extended t ∷ rest) rd =
    go_on-Keeps rest (Record.isa_extended t) rd (read_records-Keeps rest)
read_records-Keeps (Record.body contents ∷ rest) rd =
    go_on-Keeps rest (Record.body contents) rd (read_records-Keeps rest)

validate_header-strings :
    (rd : StfReader) {rd' : StfReader}
    → validate_header rd ≡ ok rd'
    → rd'.header_comments_str ≡ rd.header_comments_str
unfolding validate_header
validate_header-strings rd e = ground arith

Keeps-eq :
    (m : Result ReaderError (List Record × StfReader)) (strings : List Text) {rest : List Record}
    {rd : StfReader}
    → Keeps m strings
    → m ≡ ok (rest, rd)
    → rd.header_comments_str ≡ strings
Keeps-eq (ok found) strings keeps e = cc
Keeps-eq (err failure) strings keeps e = cc

read_version-strings :
    (records : List Record) (rd : StfReader) {rest : List Record} {rd' : StfReader}
    → read_version records rd ≡ ok (rest, rd')
    → rd'.header_comments_str ≡ rd.header_comments_str
unfolding read_version
read_version-strings [] rd e = cc
read_version-strings (Record.version major minor ∷ records) rd e =
    let versioned : StfReader = record rd { version = some (major, minor) } in
    elim (result_cases (read_records records versioned)) [
      | inl ((left, read), h) ↦
          let kept =
            Keeps-eq (read_records records versioned) (rd.header_comments_str)
              (read_records-Keeps records versioned) h in
          elim (result_cases (validate_header read)) [
            | inl (valid, v) ↦ ground (arith, h, v, kept, validate_header-strings read v)
            | inr (failure, v) ↦ ground (arith, h, v)
          ]
      | inr (failure, h) ↦ ground (arith, h)
    ]
read_version-strings (Record.identifier t ∷ records) rd e = ground arith
read_version-strings (Record.comment t ∷ records) rd e = ground arith
read_version-strings (Record.isa i ∷ records) rd e = ground arith
read_version-strings (Record.inst_iem m ∷ records) rd e = ground arith
read_version-strings (Record.trace_info i ∷ records) rd e = ground arith
read_version-strings (Record.trace_info_feature f ∷ records) rd e = ground arith
read_version-strings (Record.process_id_ext p ∷ records) rd e = ground arith
read_version-strings (Record.force_pc pc ∷ records) rd e = ground arith
read_version-strings (Record.vlen_config v ∷ records) rd e = ground arith
read_version-strings (Record.isa_extended t ∷ records) rd e = ground arith
read_version-strings (Record.end_header ∷ records) rd e = ground arith
read_version-strings (Record.body contents ∷ records) rd e = ground arith

read_header-strings :
    (records : List Record) (rd : StfReader) {rest : List Record} {rd' : StfReader}
    → read_header records rd ≡ ok (rest, rd')
    → rd'.header_comments_str ≡ rd.header_comments_str
unfolding read_header
read_header-strings [] rd e = cc
read_header-strings (r ∷ records) rd {rest} {rd'} e = elim (result_cases (unpack r rd)) [
  | inl (rd1, u) ↦
      let here : read_version records rd1 ≡ ok (rest, rd') = ground (arith, u) in
      cc (unpack-strings r rd u, read_version-strings records rd1 here)
  | inr (failure, u) ↦ ground (arith, u)
]

-- Once the comments of a trace were asked for as strings, and there were some, the reader
-- answers with them for every trace that it opens after it was closed.
pub get_header_comments_string-close_reader :
    (rd : StfReader) (records : List Record) {rest : List Record} {rd' : StfReader}
    → is_empty (get_header_comments_string rd).0 ≡ false
    → open_reader records (close_reader (get_header_comments_string rd).1) ≡ ok (rest, rd')
    → (get_header_comments_string rd').0 ≡ (get_header_comments_string rd).0
unfolding get_header_comments_string open_reader close_reader
get_header_comments_string-close_reader rd records some_strings e =
    ground (arith, read_header-strings records _ e)
