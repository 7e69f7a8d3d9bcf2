-- ===== src/Writer/LastBlocks.antt =====
-- The blocks of `flushHeader` in lib/stf_writer.cpp from the features on.
use stf_lib.Common.{option_cases, ℕ, ◌≤◌, ◌≡◌, inl, inr, arith, true, false}
use stf_lib.Common.{Option, none, some, ok}
use stf_lib.Descriptor.{encoded, is_instruction_record}
use stf_lib.Record.{Record}
use stf_lib.Writer.{StfWriter, write, pack, in_order, check_placement, set_stream_vlen}
use stf_lib.Writer.Header.{
  flush_features, flush_process_id, flush_pc, flush_vlen, flush_isa_extended,
}
use stf_lib.Writer.Blocks.{IsUnderWay, write-plain}
use mathlib.Core.List.{append-nil}
use stf_lib.Writer.Stages.{
  features_done, process_id_done, pc_done, vlen_done, isa_extended_done, VlenFits,
}

pub flush_features_lem :
    (w : StfWriter)
    → IsUnderWay w
    → w.isa_written ≡ true
    → w.initial_iem_written ≡ true
    → w.trace_info_records_written ≡ true
    → w.trace_features_written ≡ false
    → w.initial_pc_written ≡ false
    → w.last_desc ≤ 7
    → flush_features w ≡ ok (features_done w)
unfolding flush_features write pack in_order check_placement encoded is_instruction_record
flush_features_lem w u f0 f1 f2 f3 f4 h = ground arith

pub flush_process_id_lem :
    (w : StfWriter)
    → IsUnderWay w
    → w.initial_process_id_written ≡ false
    → w.last_desc ≤ 8
    → flush_process_id w ≡ ok (process_id_done w)
unfolding flush_process_id encoded
flush_process_id_lem w u f h = elim (option_cases (w.initial_process_id)) [
  | inl e ↦ ground (arith, append-nil (w.stream.written))
  | inr (p, e) ↦ ground (arith, write-plain (Record.process_id_ext p) w tt u h)
]

pub flush_pc_lem :
    (w : StfWriter)
    → IsUnderWay w
    → w.isa_written ≡ true
    → w.initial_iem_written ≡ true
    → w.trace_info_records_written ≡ true
    → w.trace_features_written ≡ true
    → w.initial_pc_written ≡ false
    → w.last_desc ≤ 9
    → flush_pc w ≡ ok (pc_done w)
unfolding flush_pc encoded
flush_pc_lem w u f0 f1 f2 f3 f4 h = elim (option_cases (w.initial_pc)) [
  | inl e ↦ ground (arith, append-nil (w.stream.written))
  | inr (p, e) ↦ ground (arith, write-plain (Record.force_pc p) w tt u h)
]

VlenFits-some : (o : Option ℕ) (v : ℕ) → VlenFits o → o ≡ some v → 64 ≤ v
VlenFits-some none v fits e = cc
VlenFits-some (some u) v fits e = ground arith

pub flush_vlen_lem :
    (w : StfWriter)
    → IsUnderWay w
    → VlenFits (w.vlen_config)
    → w.stream.vlen ≡ 0
    → w.vlen_config_written ≡ false
    → w.last_desc ≤ 10
    → flush_vlen w ≡ ok (vlen_done w)
unfolding flush_vlen write pack set_stream_vlen in_order check_placement encoded
    is_instruction_record
flush_vlen_lem w u fits v0 f h = elim (option_cases (w.vlen_config)) [
  | inl e ↦ ground (arith, append-nil (w.stream.written))
  | inr (v, e) ↦ ground (arith, VlenFits-some (w.vlen_config) v fits e)
]

pub flush_isa_extended_lem :
    (w : StfWriter)
    → IsUnderWay w
    → w.isa_extended_written ≡ false
    → w.last_desc ≤ 13
    → flush_isa_extended w ≡ ok (isa_extended_done w)
unfolding flush_isa_extended encoded
flush_isa_extended_lem w u f h = elim (option_cases (w.isa_extended)) [
  | inl e ↦ ground (arith, append-nil (w.stream.written))
  | inr (p, e) ↦ ground (arith, write-plain (Record.isa_extended p) w tt u h)
]
