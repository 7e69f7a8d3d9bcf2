-- ===== src/Reader/Bytes.antt =====
-- From the writer to the reader through the bytes of the file: lib/stf_writer.cpp,
-- stf-inc/stf_record_types.hpp and lib/stf_reader.cpp.
use stf_lib.Common.{ℕ, ◌<◌, ◌≡◌, sym, ap, ◌∙◌, List, [], ◌++◌, length, some, ok}
use stf_lib.Branch.Decoder.{InstIem}
use stf_lib.Record.{Record, Isa}
use stf_lib.Writer.{StfWriter}
use stf_lib.Writer.Life.{finalize_header}
use stf_lib.Writer.Finalize.{IsReady}
use stf_lib.Reader.{new_reader, open_reader}
use stf_lib.Reader.RoundTrip.{trace, opened_reader, open_reader-finalize_header}
use stf_lib.Stream.{Fstream, new_fstream}
use stf_lib.Stream.Ranges.{AllInRange}
use stf_lib.Stream.Pack.{pack_records}
use stf_lib.Stream.Trace.{ReadTrace, read_trace}
use stf_lib.Stream.TraceRoundTrip.{read_trace-pack_records}

opens :
    (i : Isa) (m : InstIem) (w w' : StfWriter) (rest : List Record)
    → IsReady i m w
    → w.stream.written ≡ trace []
    → finalize_header w ≡ ok w'
    → open_reader (w'.stream.written ++ rest) new_reader ≡ opened_reader i m w rest
opens i m w w' rest ready begun finalized =
    let (v, writes, opened) = open_reader-finalize_header i m w rest ready begun in
    let same : v ≡ w' = cc (writes, finalized) in
    ap (λ (u : StfWriter). open_reader (u.stream.written ++ rest) new_reader) (sym same) ∙ opened

-- A writer that wrote only the identifier and the version and is ready (it has an ISA, an IEM
-- and a trace info, its vector length, if any, is at least 64, and nothing of the header is
-- written) finalizes its header. The bytes of the records that it wrote and of any records
-- behind them, if they are in the ranges of their types, none is a transaction and no
-- assertion fails, are read back as a trace that a new reader opens: it finds every value that
-- the writer had and then the records behind the header, or refuses a header without a PC. The
-- fuel is more than the number of records.
pub open_reader-read_trace :
    (i : Isa) (m : InstIem) (w w' : StfWriter) (rest : List Record) (s' : Fstream) (bytes : List ℕ)
    (fuel : ℕ)
    → IsReady i m w
    → w.stream.written ≡ trace []
    → finalize_header w ≡ ok w'
    → AllInRange (new_fstream.has_32bit_events) (w'.stream.written ++ rest)
    → pack_records new_fstream (w'.stream.written ++ rest) ≡ ok (s', bytes)
    → length (w'.stream.written ++ rest) < fuel
    → (t : ReadTrace) × (read_trace fuel new_fstream bytes ≡ some t)
      × (open_reader t.records new_reader ≡ opened_reader i m w rest)
open_reader-read_trace i m w w' rest s' bytes fuel ready begun finalized ranges packed enough = (
  _,
  read_trace-pack_records (w'.stream.written ++ rest) new_fstream s' bytes fuel ranges packed
      enough,
  opens i m w w' rest ready begun finalized,
)
