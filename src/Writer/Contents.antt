-- ===== src/Writer/Contents.antt =====
-- `finalizeHeader` of lib/stf_writer.cpp: the records that it leaves in the trace.
use stf_lib.Common.{
  option_cases, ℕ, ◌≤◌, ◌≡◌, inl, inr, refl, ap, ◌∙◌, arith, Bool, true, false, not, ◌&&◌,
  if◌then◌else◌,
}
use stf_lib.Common.{bit_or, List, [], ◌∷◌, ◌++◌, map, Option, none, some, Result, ok, ◌>>=◌}
use stf_lib.Descriptor.{encoded}
use stf_lib.Branch.Decoder.{InstIem}
use stf_lib.Record.{Record, Isa, stf_contain_event64}
use stf_lib.Writer.{StfWriter, WriterError, write}
use stf_lib.Writer.Header.{is_empty, is_some, features_or_new, flush_header}
use stf_lib.Writer.Blocks.{after, option_records, write-plain}
use mathlib.Core.List.{append_assoc}
use stf_lib.Writer.Life.{finalize_header, is_riscv64, all_written}
use stf_lib.Writer.Header.{set_trace_feature}
use stf_lib.Writer.Finalize.{IsReady, flushed, flush_header_lem, step, assert_ok, if-le}

-- An RV64 trace has 64-bit events, unless it was asked for 32 bits.
abbrev pub wants_event64 : Isa → InstIem → StfWriter → Bool
wants_event64 Isa.riscv InstIem.rv64 w = not w.force_32bit_events
wants_event64 i m w = false

abbrev pub header_features : Isa → InstIem → StfWriter → ℕ
header_features i m w =
    if wants_event64 i m w
    then bit_or (features_or_new w.trace_features) stf_contain_event64
    else features_or_new w.trace_features

-- The records of the header behind the identifier and the version.
abbrev pub header_records : Isa → InstIem → StfWriter → List Record
header_records i m w =
    map Record.comment w.header_comments
    ++ (Record.isa i
        ∷ Record.inst_iem m
        ∷ (map Record.trace_info w.trace_info_records
            ++ (Record.trace_info_feature (header_features i m w)
                ∷ (option_records Record.process_id_ext w.initial_process_id
                    ++ (option_records Record.force_pc w.initial_pc
                        ++ (option_records Record.vlen_config w.vlen_config
                            ++ (option_records Record.isa_extended w.isa_extended
                                ++ (Record.end_header ∷ []))))))))

-- The features of a writer before `flushHeader`.
abbrev new_features : Bool → Option ℕ → Option ℕ
new_features true none = some stf_contain_event64
new_features true (some f) = some (bit_or f stf_contain_event64)
new_features false o = o

features_or_new-new_features :
    (b : Bool) (o : Option ℕ)
    → features_or_new (new_features b o)
      ≡ (if b then bit_or (features_or_new o) stf_contain_event64 else features_or_new o)
features_or_new-new_features true none = refl
features_or_new-new_features true (some f) = refl
features_or_new-new_features false none = refl
features_or_new-new_features false (some f) = refl

set_event64 :
    (b : Bool) (w : StfWriter)
    → (if b then set_trace_feature stf_contain_event64 w else w)
      ≡ record w { trace_features = new_features b (w.trace_features) }
unfolding set_trace_feature
set_event64 true w = elim (option_cases (w.trace_features)) [
  | inl e ↦ ground (arith, e)
  | inr (f, e) ↦ ground (arith, e)
]
set_event64 false w = refl

is_riscv64-wants_event64 :
    (i : Isa) (m : InstIem) (w : StfWriter)
    → w.isa ≡ some i
    → w.initial_iem ≡ some m
    → (not w.force_32bit_events && is_riscv64 w) ≡ wants_event64 i m w
is_riscv64-wants_event64 i m w hi hm = ground (arith, hi, hm)

-- `finalizeHeader` behind the choice of the features.
abbrev finish : StfWriter → Result WriterError StfWriter
finish w = (if all_written w then ok w else flush_header w) >>= λ w1.
    write Record.end_header w1 >>= λ w2. ok (record w2 { header_finalized = true })

abbrev pub finished : Isa → InstIem → StfWriter → StfWriter
finished i m w = record (after (Record.end_header ∷ []) 19 (flushed i m w)) {
  header_finalized = true;
}

if-false : {A : Type 0} (b : Bool) (x : A) {y z : A} → b ≡ false → y ≡ z → (if b then x else y) ≡ z
if-false true x h e = cc
if-false false x h e = e

finish_lem :
    (i : Isa) (m : InstIem) (w : StfWriter) → IsReady i m w → finish w ≡ ok (finished i m w)
unfolding all_written encoded
finish_lem i m w h =
    let no_pid : Bool = is_empty (option_records Record.process_id_ext (w.initial_process_id)) in
    let no_pc : Bool = is_empty (option_records Record.force_pc (w.initial_pc)) in
    let no_extension : Bool = is_empty (option_records Record.isa_extended (w.isa_extended)) in
    let pid : ℕ = if no_pid then 7 else 8 in
    let pc : ℕ = if no_pc then pid else 9 in
    let vlen : ℕ = if is_some (w.vlen_config) then 10 else pc in
    let pid_bound : pid ≤ 19 = if-le no_pid 7 8 19 (omega arith) (omega arith) in
    let pc_bound : pc ≤ 19 = if-le no_pc pid 9 19 pid_bound (omega arith) in
    let vlen_bound : vlen ≤ 19 = if-le (is_some (w.vlen_config)) 10 pc 19 (omega arith) pc_bound in
    let last : (flushed i m w).last_desc ≤ 19 =
      if-le no_extension vlen 13 19 vlen_bound (omega arith) in
    step _
      (if-false (all_written w) (ok w) (ground (arith, h.unwritten.0)) (flush_header_lem i m w h))
      (step _ (write-plain Record.end_header (flushed i m w) tt h.under_way last) refl)

-- The features as `finalizeHeader` sets them.
abbrev pub with_features : Isa → InstIem → StfWriter → StfWriter
with_features i m w = record w {
  trace_features = new_features (wants_event64 i m w) (w.trace_features);
}

finalize_header_lem :
    (i : Isa) (m : InstIem) (w : StfWriter)
    → IsReady i m w
    → finalize_header w ≡ ok (finished i m (with_features i m w))
unfolding finalize_header
finalize_header_lem i m w h = if-false (w.header_finalized) (ok w) (h.under_way.1) (
    step _ (assert_ok (w.header_started) WriterError.header_not_started (h.under_way.0)) (
      ap finish (
        set_event64 (not w.force_32bit_events && is_riscv64 w) w
        ∙ ap (λ (b : Bool). record w { trace_features = new_features b (w.trace_features) })
            (is_riscv64-wants_event64 i m w h.has_isa h.has_iem))
      ∙ finish_lem i m (with_features i m w) (record {
        has_isa = h.has_isa;
        has_iem = h.has_iem;
        has_trace_info = h.has_trace_info;
        under_way = h.under_way;
        unwritten = h.unwritten;
        at_start = h.at_start;
        vlen_fits = h.vlen_fits;
        no_vlen = h.no_vlen;
      })))

-- A writer that is ready (it was opened, it has an ISA, an IEM and a trace info, its vector
-- length, if any, is at least 64, and nothing of the header is written) finalizes its header,
-- and writes its comments, ISA, IEM, trace infos, features, with 64-bit events for an RV64
-- trace that did not ask for 32 bits, process ID, PC, vector length and extension, those that
-- it has, and the end of the header, in this order.
pub finalize_header-written :
    (i : Isa) (m : InstIem) (w : StfWriter)
    → IsReady i m w
    → (w' : StfWriter) × (finalize_header w ≡ ok w')
      × (w'.header_finalized ≡ true)
      × (w'.stream.written ≡ w.stream.written ++ header_records i m w)
finalize_header-written i m w h = (
  finished i m (with_features i m w),
  finalize_header_lem i m w h,
  refl,
  simp (append_assoc, features_or_new-new_features),
)
