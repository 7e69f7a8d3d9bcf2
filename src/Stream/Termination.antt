-- ===== src/Stream/Termination.antt =====
-- Every record that is read takes its descriptor at least, so reading a trace and `seek` end.
use stf_lib.Common.{
  ℕ, zero, suc, ◌+◌, ◌≤◌, ◌<◌, ◌≡◌, arith, Bool, true, false, List, [], ◌∷◌, length,
}
use stf_lib.Stream.Reads.{◌>>=◌, read_object_id}
use stf_lib.Common.{
  ap, ◌∙◌, Option, none, some, Result, ok, err, result_cases, inl, inr, Ensures-ok,
}
use stf_lib.Descriptor.{Descriptor, descriptors, to_internal}
use stf_lib.Record.{Record}
use stf_lib.Stream.{Fstream, StreamError}
use stf_lib.Stream.Trace.{ReadTrace, add_record, record_then, read_trace}
use stf_lib.Common.{lt_or_ge}
use stf_lib.Stream.Trace.{SeekError, seek_loop}
use stf_lib.Stream.Seek.{seek_loop-stop, seek_loop-record, seek_loop-error}
use stf_lib.Stream.TraceRoundTrip.{read_trace-record}
use stf_lib.Stream.Unpack.{
  unpack_impl, constructor_at, constructed, construct_at, construct, read_record, unpack_text,
  unpack_pte, unpack_page_table_walk, unpack_event_type, unpack_event, unpack_more_words,
  unpack_inst_reg, unpack_inst_mem_access, unpack_inst_microop, unpack_bus_master_access,
  unpack_clock, unpack_dependency, unpack_trace_info, unpack_process_id,
}
use stf_lib.Stream.Lengths.{NoLonger, NoLonger-refused, Leaves, no_longer_rules}

NoLonger-unpack_text : (w : ℕ) → NoLonger (unpack_text w)
unfolding unpack_text
NoLonger-unpack_text w = search no_longer_rules depth 20

NoLonger-unpack_pte : NoLonger unpack_pte
unfolding unpack_pte
NoLonger-unpack_pte = search no_longer_rules depth 20

NoLonger-unpack_page_table_walk : NoLonger unpack_page_table_walk
unfolding unpack_page_table_walk
NoLonger-unpack_page_table_walk = search (no_longer_rules, NoLonger-unpack_pte) depth 20

NoLonger-unpack_event_type : (b : Bool) → NoLonger (unpack_event_type b)
unfolding unpack_event_type
NoLonger-unpack_event_type true = search no_longer_rules depth 20
NoLonger-unpack_event_type false = search no_longer_rules depth 20

NoLonger-unpack_event : NoLonger unpack_event
unfolding unpack_event
NoLonger-unpack_event = search (no_longer_rules, NoLonger-unpack_event_type) depth 20

NoLonger-unpack_more_words : (b : Bool) (vlen : ℕ) → NoLonger (unpack_more_words b vlen)
unfolding unpack_more_words
NoLonger-unpack_more_words true vlen = search no_longer_rules depth 20
NoLonger-unpack_more_words false vlen = search no_longer_rules depth 20

NoLonger-unpack_inst_reg : NoLonger unpack_inst_reg
unfolding unpack_inst_reg
NoLonger-unpack_inst_reg = search (no_longer_rules, NoLonger-unpack_more_words) depth 20

NoLonger-unpack_inst_mem_access : NoLonger unpack_inst_mem_access
unfolding unpack_inst_mem_access
NoLonger-unpack_inst_mem_access = search no_longer_rules depth 20

NoLonger-unpack_inst_microop : NoLonger unpack_inst_microop
unfolding unpack_inst_microop
NoLonger-unpack_inst_microop = search no_longer_rules depth 20

NoLonger-unpack_bus_master_access : NoLonger unpack_bus_master_access
unfolding unpack_bus_master_access
NoLonger-unpack_bus_master_access = search no_longer_rules depth 20

NoLonger-unpack_clock : NoLonger unpack_clock
unfolding unpack_clock
NoLonger-unpack_clock = search (no_longer_rules, NoLonger-unpack_text) depth 20

NoLonger-unpack_dependency : NoLonger unpack_dependency
unfolding unpack_dependency
NoLonger-unpack_dependency = search no_longer_rules depth 20

NoLonger-unpack_trace_info : NoLonger unpack_trace_info
unfolding unpack_trace_info
NoLonger-unpack_trace_info = search (no_longer_rules, NoLonger-unpack_text) depth 20

NoLonger-unpack_process_id : NoLonger unpack_process_id
unfolding unpack_process_id
NoLonger-unpack_process_id = search no_longer_rules depth 20

ruleset unpack_rules = (
  no_longer_rules, NoLonger-unpack_text, NoLonger-unpack_page_table_walk, NoLonger-unpack_event,
  NoLonger-unpack_inst_reg, NoLonger-unpack_inst_mem_access, NoLonger-unpack_inst_microop,
  NoLonger-unpack_bus_master_access, NoLonger-unpack_clock, NoLonger-unpack_dependency,
  NoLonger-unpack_trace_info, NoLonger-unpack_process_id, NoLonger-refused,
)

NoLonger-unpack_impl : (d : Descriptor) → NoLonger (unpack_impl d)
unfolding unpack_impl
NoLonger-unpack_impl Descriptor.reserved = search unpack_rules depth 20
NoLonger-unpack_impl _ = search unpack_rules depth 20

NoLonger-constructed : (d : Option Descriptor) → NoLonger (constructed d)
NoLonger-constructed none = NoLonger-refused _
NoLonger-constructed (some d) = NoLonger-unpack_impl d

NoLonger-construct_at : (index : Option ℕ) → NoLonger (construct_at index)
unfolding construct_at
NoLonger-construct_at none = NoLonger-refused _
NoLonger-construct_at (some index) = NoLonger-constructed (constructor_at index descriptors)

-- A record that is read leaves fewer bytes.
pub read_record-shorter :
    (s : Fstream) (bytes : List ℕ) (rec : Record) (s' : Fstream) (rest : List ℕ)
    → read_record s bytes ≡ ok (rec, s', rest)
    → length rest < length bytes
unfolding read_record read_object_id construct ◌>>=◌
read_record-shorter s [] rec s' rest e = absurd cc
read_record-shorter s (b ∷ bytes) rec s' rest e =
    let below : length rest ≤ length bytes =
      Ensures-ok (Leaves (length bytes)) ((NoLonger-construct_at (to_internal b)).leaves s bytes)
        e in
    omega (arith, below)

-- The records that reads in a row give, and where they leave the stream.
pub data Reads : Fstream → List ℕ → List Record → Fstream → List ℕ → Type 0 where
  stopped : (s : Fstream) (bytes : List ℕ) → Reads s bytes [] s bytes
  read_one :
      (s s' s'' : Fstream) (bytes rest left : List ℕ) (rec : Record) (records : List Record)
      → read_record s bytes ≡ ok (rec, s', rest)
      → Reads s' rest records s'' left
      → Reads s bytes (rec ∷ records) s'' left

-- Reading bytes record by record, with more fuel than bytes, does not run out of fuel: the
-- records that it gives are those of reads in a row, up to the first one that has an error,
-- which it gives too, and they and the bytes that are left are no more than the bytes. The
-- error is an exception of the source, or that the model does not follow the source: a record
-- is cut off, is a transaction or has an ISA or IEM that is none, or a descriptor is in a gap
-- of the encoding.
pub read_trace-ends :
    (fuel : ℕ) (s : Fstream) (bytes : List ℕ)
    → length bytes < fuel
    → (t : ReadTrace) × (left : List ℕ) × (read_trace fuel s bytes ≡ some t)
      × Reads s bytes t.records t.last_state left
      × (read_record t.last_state left ≡ err t.exception)
      × (length t.records + length left ≤ length bytes)
unfolding read_trace
read_trace-ends zero s bytes enough = absurd (omega (arith, enough))
read_trace-ends (suc fuel) s bytes enough = elim (result_cases (read_record s bytes)) [
  | inl ((rec, s', rest), e) ↦
      let shorter : length rest < length bytes = read_record-shorter s bytes rec s' rest e in
      let (t, left, reads, row, fails, few) =
        read_trace-ends fuel s' rest (omega (arith, shorter)) in
      (
        record t { records = rec ∷ t.records },
        left,
        read_trace-record fuel s s' rec bytes rest e ∙ ap (add_record rec) reads,
        read_one s s' t.last_state bytes rest left rec t.records e row,
        fails,
        omega (arith, shorter, few),
      )
  | inr (failure, e) ↦ (
    record { records = []; last_state = s; exception = failure },
    bytes,
    ap
        (λ (m : Result StreamError (Record × Fstream × List ℕ)).
          record_then s m (λ s' rest. read_trace fuel s' rest))
        e,
    stopped s bytes,
    e,
    omega arith,
  )
]

-- So does `seek`, however many marker records it is to skip.
pub seek_loop-ends :
    (fuel end : ℕ) (s : Fstream) (bytes : List ℕ)
    → length bytes < fuel
    → (r : Result SeekError (Fstream × List ℕ)) × (seek_loop fuel end s bytes ≡ some r)
seek_loop-ends zero end s bytes enough = absurd (omega (arith, enough))
seek_loop-ends (suc fuel) end s bytes enough = elim (lt_or_ge (s.num_marker_records) end) [
  | inl below ↦ elim (result_cases (read_record s bytes)) [
    | inl ((rec, s', rest), e) ↦
        let (r, ends) =
          seek_loop-ends fuel end s' rest
            (omega (arith, read_record-shorter s bytes rec s' rest e)) in
        (r, seek_loop-record fuel end s s' rec bytes rest below e ∙ ends)
    | inr (failure, e) ↦ (_, seek_loop-error fuel end s bytes failure below e)
  ]
  | inr reached ↦ (_, seek_loop-stop fuel end s bytes reached)
]
