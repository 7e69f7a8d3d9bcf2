-- ===== src/Tests/Stream.antt =====
-- The bytes of a short trace: stf-inc/stf_record_types.hpp and lib/stf_ifstream.cpp.
use stf_lib.Common.{
  ℕ, ◌+◌, ◌^◌, ◌≡◌, refl, arith, true, false, List, [], ◌∷◌, some, ok, err, ◌≤◌, length,
}
use stf_lib.Record.{Record, Body}
use stf_lib.Stream.{Fstream, end_of_file, new_fstream, set_fstream_vlen}
use stf_lib.Stream.Writes.{write_uint, write_elements, write_container}
use stf_lib.Stream.Events.{convert_to_32bit_event}
use stf_lib.Stream.Pack.{
  calc_vector_len, pack_event, pack_more_words, pack_inst_reg, pack_body, pack_impl, pack_record,
  pack_records,
}
use stf_lib.Stream.Trace.{ReadTrace, read_trace, seek}
use stf_lib.Stream.Termination.{Reads, read_trace-ends}
use stf_lib.Stream.Unpack.{read_record}
use stf_lib.Stream.Effects.{pc_records, marker_records, pack_records-track_all}
use stf_lib.Stream.Seek.{split_at_marker, seek-pack_records}
use stf_lib.Stream.Ranges.{AllInRange}
use stf_lib.Registers.{is_vector, get_reg_type, pack_reg_num, pack_reg_metadata}
use stf_lib.Descriptor.{encoded}
use stf_lib.PcTracker.{new_tracker, track, track_opcode, track_all}
use stf_lib.Stream.TraceRoundTrip.{read_trace-pack_records}

-- The features of a trace with 32-bit events, a vector length, a machine timer interrupt, a word
-- and a vector register of 128 bits, and two opcodes.
abbrev short_trace : List Record
short_trace =
    Record.trace_info_feature 1
    ∷ Record.vlen_config 128
    ∷ Record.body (Body.event (record { event_type = 2 ^ 63 + 7; content = 5 ∷ [] }))
    ∷ Record.body (
        Body.inst_reg
          (record { reg = 0x30002; operand_type = 3; first_word = 1; more_words = 2 ∷ [] }))
    ∷ Record.body (Body.inst_opcode32 0x13)
    ∷ Record.body (Body.inst_pc_target 0x80)
    ∷ Record.body (Body.inst_opcode16 1)
    ∷ []

abbrev short_bytes : List ℕ
short_bytes =
    7 ∷ 1 ∷ 0 ∷ 0 ∷ 0 ∷ 0 ∷ 0 ∷ 0 ∷ 0 ∷ 10 ∷ 128 ∷ 0 ∷ 0 ∷ 0 ∷ 100 ∷ 7 ∷ 0 ∷ 0 ∷ 128 ∷ 1 ∷ 5 ∷ 0 ∷ 0
    ∷ 0 ∷ 0 ∷ 0 ∷ 0 ∷ 0 ∷ 40 ∷ 2 ∷ 0 ∷ 51 ∷ 1 ∷ 0 ∷ 0 ∷ 0 ∷ 0 ∷ 0 ∷ 0 ∷ 0 ∷ 2 ∷ 0 ∷ 0 ∷ 0 ∷ 0 ∷ 0
    ∷ 0 ∷ 0 ∷ 240 ∷ 0x13 ∷ 0 ∷ 0 ∷ 0 ∷ 31 ∷ 128 ∷ 0 ∷ 0 ∷ 0 ∷ 0 ∷ 0 ∷ 0 ∷ 0 ∷ 241 ∷ 1 ∷ 0 ∷ []

-- The stream that has written it.
abbrev short_end : Fstream
short_end = record {
  pc_tracker = record {
    pc = 4;
    next_pc = 0x80;
    target_pc = 0x80;
    pc_offset = 0;
    is_branch = false;
  };
  num_marker_records = 2;
  vlen = 128;
  has_32bit_events = true;
  protocol = 2;
}

short_trace_in_range : AllInRange false short_trace
unfolding is_vector get_reg_type
short_trace_in_range = (
  omega arith,
  (
    omega arith,
    (
      (
        record {
          top = 2;
          number = 7;
          top_bits = omega arith;
          number_bits = omega arith;
          parts = refl;
        },
        omega arith,
        (omega arith, tt),
      ),
      (
        (omega arith, omega arith, omega arith, (omega arith, tt), tt),
        (omega arith, (omega arith, (omega arith, tt))),
      ),
    ),
  ),
)

short_trace_packs : pack_records new_fstream short_trace ≡ ok (short_end, short_bytes)
unfolding pack_records pack_record pack_impl pack_body set_fstream_vlen pack_inst_reg
    pack_more_words is_vector get_reg_type calc_vector_len write_uint encoded write_container
    write_elements pack_event convert_to_32bit_event pack_reg_num pack_reg_metadata new_tracker
    track track_opcode
short_trace_packs = refl

read_trace-pack_records_example :
    read_trace 8 new_fstream short_bytes
    ≡ some (record { records = short_trace; last_state = short_end; exception = end_of_file })
read_trace-pack_records_example =
    read_trace-pack_records short_trace new_fstream short_end short_bytes 8 short_trace_in_range
      short_trace_packs (omega arith)

-- One opcode further, the branch and the second opcode are left.
seek-pack_records_example :
    (middle : Fstream) × (front : List ℕ) × (back : List ℕ) × (pack_records new_fstream
        (split_at_marker 1 short_trace).0
      ≡ ok (middle, front))
    × (pack_records middle (split_at_marker 1 short_trace).1 ≡ ok (short_end, back))
    × (seek 8 1 new_fstream short_bytes ≡ some (ok (middle, back)))
unfolding marker_records
seek-pack_records_example =
    seek-pack_records short_trace 1 new_fstream short_end short_bytes 8 short_trace_in_range
      short_trace_packs (omega arith) (omega arith)

pack_records-track_all_example :
    (short_end.pc_tracker ≡ track_all (new_tracker 0 0) (pc_records short_trace))
    × (2 ≡ 0 + marker_records short_trace)
pack_records-track_all_example =
    pack_records-track_all short_trace new_fstream short_end short_bytes short_trace_packs

-- A descriptor that stands for no record, and a record without its end.
read_trace-ends_example :
    (t : ReadTrace) × (left : List ℕ) × (read_trace 5 new_fstream (10 ∷ 128 ∷ 0 ∷ 99 ∷ []) ≡ some t)
    × Reads new_fstream (10 ∷ 128 ∷ 0 ∷ 99 ∷ []) t.records t.last_state left
    × (read_record t.last_state left ≡ err t.exception)
    × (length t.records + length left ≤ 4)
read_trace-ends_example = read_trace-ends 5 new_fstream (10 ∷ 128 ∷ 0 ∷ 99 ∷ []) (omega arith)
