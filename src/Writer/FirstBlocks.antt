-- ===== src/Writer/FirstBlocks.antt =====
-- The blocks of `flushHeader` in lib/stf_writer.cpp up to the trace infos.
use stf_lib.Common.{◌≤◌, ◌≡◌, refl, arith, true, false}
use stf_lib.Common.{some, ok}
use stf_lib.Descriptor.{encoded}
use stf_lib.Branch.Decoder.{InstIem}
use stf_lib.Record.{Record, Isa}
use stf_lib.Writer.{StfWriter}
use stf_lib.Writer.Header.{is_empty, flush_comments, flush_isa, flush_iem, flush_trace_info}
use stf_lib.Writer.Blocks.{IsUnderWay, write-plain, write_map}
use mathlib.Core.List.{append-nil}
use stf_lib.Writer.Stages.{comments_done, isa_done, iem_done, trace_info_done, IsUnwritten}

pub flush_comments_lem :
    (w : StfWriter)
    → IsUnderWay w
    → IsUnwritten w
    → w.last_desc ≤ 3
    → flush_comments w ≡ ok (comments_done w)
unfolding flush_comments encoded
flush_comments_lem w u f h =
    let writes = write_map Record.comment 3 (λ c. tt) (λ c. refl) (w.header_comments) w u h in
    ground (arith, writes, append-nil (w.stream.written))

pub flush_isa_lem :
    (w : StfWriter) (i : Isa)
    → w.isa ≡ some i
    → IsUnderWay w
    → w.isa_written ≡ false
    → w.initial_iem_written ≡ false
    → w.trace_info_records_written ≡ false
    → w.trace_features_written ≡ false
    → w.initial_pc_written ≡ false
    → w.last_desc ≤ 4
    → flush_isa w ≡ ok (isa_done i w)
unfolding flush_isa encoded
flush_isa_lem w i e u f0 f1 f2 f3 f4 h = ground (arith, write-plain (Record.isa i) w tt u h)

pub flush_iem_lem :
    (w : StfWriter) (m : InstIem)
    → w.initial_iem ≡ some m
    → IsUnderWay w
    → w.isa_written ≡ true
    → w.initial_iem_written ≡ false
    → w.trace_info_records_written ≡ false
    → w.trace_features_written ≡ false
    → w.initial_pc_written ≡ false
    → w.last_desc ≤ 5
    → flush_iem w ≡ ok (iem_done m w)
unfolding flush_iem encoded
flush_iem_lem w m e u f0 f1 f2 f3 f4 h = ground (arith, write-plain (Record.inst_iem m) w tt u h)

pub flush_trace_info_lem :
    (w : StfWriter)
    → is_empty w.trace_info_records ≡ false
    → IsUnderWay w
    → w.isa_written ≡ true
    → w.initial_iem_written ≡ true
    → w.trace_info_records_written ≡ false
    → w.trace_features_written ≡ false
    → w.initial_pc_written ≡ false
    → w.last_desc ≤ 6
    → flush_trace_info w ≡ ok (trace_info_done w)
unfolding flush_trace_info encoded
flush_trace_info_lem w e u f0 f1 f2 f3 f4 h =
    let writes = write_map Record.trace_info 6 (λ c. tt) (λ c. refl) (w.trace_info_records) w u h in
    ground (arith, writes)
