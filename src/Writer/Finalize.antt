-- ===== src/Writer/Finalize.antt =====
-- The whole of `flushHeader` in lib/stf_writer.cpp, for a writer that was opened and filled.
use stf_lib.Common.{ℕ, ◌≤◌, ◌≡◌, refl, ap, ◌∙◌, arith, Bool, true, false, not, if◌then◌else◌}
use stf_lib.Common.{some, Result, ok, ◌>>=◌, assert}
use stf_lib.Branch.Decoder.{InstIem}
use stf_lib.Record.{Isa}
use stf_lib.Writer.{StfWriter, WriterError}
use stf_lib.Writer.Header.{is_empty, flush_header}
use stf_lib.Writer.Blocks.{IsUnderWay}
use stf_lib.Writer.Stages.{
  comments_done, isa_done, iem_done, trace_info_done, features_done, process_id_done, pc_done,
  vlen_done, isa_extended_done, IsUnwritten, VlenFits,
}
use stf_lib.Writer.FirstBlocks.{
  flush_comments_lem, flush_isa_lem, flush_iem_lem, flush_trace_info_lem,
}
use stf_lib.Writer.LastBlocks.{
  flush_features_lem, flush_process_id_lem, flush_pc_lem, flush_vlen_lem, flush_isa_extended_lem,
}

-- A writer whose header can be flushed: it was opened, it has what a header must have, and nothing
-- of the header was written.
pub record IsReady (i : Isa) (m : InstIem) (w : StfWriter) : Type 0 where
  pub has_isa : w.isa ≡ some i
  pub has_iem : w.initial_iem ≡ some m
  pub has_trace_info : is_empty w.trace_info_records ≡ false
  pub under_way : IsUnderWay w
  pub unwritten : IsUnwritten w
  pub at_start : w.last_desc ≤ 3
  pub vlen_fits : VlenFits w.vlen_config
  pub no_vlen : w.stream.vlen ≡ 0

abbrev pub flushed : Isa → InstIem → StfWriter → StfWriter
flushed i m w = isa_extended_done (
    vlen_done (
      pc_done (
        process_id_done
          (features_done (trace_info_done (iem_done m (isa_done i (comments_done w))))))))

pub step :
    {A B : Type 0} {m : Result WriterError A} {a : A} (f : A → Result WriterError B)
    {r : Result WriterError B}
    → m ≡ ok a
    → f a ≡ r
    → (m >>= f) ≡ r
step f e g = ap (λ t. t >>= f) e ∙ g

pub assert_ok : (b : Bool) (e : WriterError) → b ≡ true → assert b e ≡ ok tt
assert_ok true e h = refl
assert_ok false e h = cc

pub if-le : (b : Bool) (x y k : ℕ) → x ≤ k → y ≤ k → (if b then x else y) ≤ k
if-le true x y k hx hy = hx
if-le false x y k hx hy = hy

pub flush_header_lem :
    (i : Isa) (m : InstIem) (w : StfWriter) → IsReady i m w → flush_header w ≡ ok (flushed i m w)
unfolding flush_header
flush_header_lem i m w h =
    let u : IsUnderWay w = h.under_way in
    let (fc, fi, fm, ft, ff, fp, fa, fv, fx) = h.unwritten in
    let w1 : StfWriter = comments_done w in
    let w2 : StfWriter = isa_done i w1 in
    let w3 : StfWriter = iem_done m w2 in
    let w4 : StfWriter = trace_info_done w3 in
    let w5 : StfWriter = features_done w4 in
    let w6 : StfWriter = process_id_done w5 in
    let w7 : StfWriter = pc_done w6 in
    let w8 : StfWriter = vlen_done w7 in
    let d1 : w1.last_desc ≤ 4 =
      if-le _ (w.last_desc) 3 4 (omega (arith, h.at_start)) (omega arith) in
    let d4 : w4.last_desc ≤ 7 = if-le _ 5 6 7 (omega arith) (omega arith) in
    let d6 : w6.last_desc ≤ 9 = if-le _ 7 8 9 (omega arith) (omega arith) in
    let d7 : w7.last_desc ≤ 10 = if-le _ (w6.last_desc) 9 10 (omega arith) (omega arith) in
    let d8 : w8.last_desc ≤ 13 = if-le _ 10 (w7.last_desc) 13 (omega arith) (omega arith) in
    step _ (assert_ok (not w.header_finalized) WriterError.header_finalized (ground (arith, u.1))) (
      step _ (flush_comments_lem w u h.unwritten h.at_start) (
        step _ (flush_isa_lem w1 i h.has_isa u fi fm ft ff fa d1) (
          step _ (flush_iem_lem w2 m h.has_iem u refl fm ft ff fa (omega arith)) (
            step _ (flush_trace_info_lem w3 h.has_trace_info u refl refl ft ff fa (omega arith)) (
              step _ (flush_features_lem w4 u refl refl refl ff fa d4) (
                step _ (flush_process_id_lem w5 u fp (omega arith)) (
                  step _ (flush_pc_lem w6 u refl refl refl refl fa d6) (
                    step _ (flush_vlen_lem w7 u h.vlen_fits h.no_vlen fv d7)
                      (flush_isa_extended_lem w8 u fx d8)))))))))
