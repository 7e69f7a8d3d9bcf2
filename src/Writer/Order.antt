-- ===== src/Writer/Order.antt =====
-- `operator<<` of lib/stf_writer.cpp: the order of the records that it takes.
use stf_lib.Common.{
  result_cases, ℕ, ◌≡◌, inl, inr, sym, ap, ◌∙◌, arith, Bool, true, false, not, ◌&&◌, ◌||◌, ◌==◌,
  if◌then◌else◌,
}
use stf_lib.Common.{List, [], ◌∷◌, ◌++◌, Result, ok, ◌>>=◌}
use stf_lib.Descriptor.{Descriptor, encoded}
use stf_lib.Record.{Record, Body, get_id}
use stf_lib.Writer.{
  StfWriter, OutStream, WriterError, write, write_all, pack, check_placement, set_stream_vlen,
}
use mathlib.Core.List.{append-nil, append_assoc}

-- Records that stand only in the header, and records that stand only behind it.
abbrev pub is_header_only : Descriptor → Bool
is_header_only Descriptor.isa = true
is_header_only Descriptor.trace_info = true
is_header_only Descriptor.trace_info_feature = true
is_header_only Descriptor.vlen_config = true
is_header_only Descriptor.isa_extended = true
is_header_only Descriptor.end_header = true
is_header_only d = false

abbrev pub is_body_only : Record → Bool
is_body_only (Record.body contents) = true
is_body_only r = false

-- What may follow a record with the encoding `last`: an access is followed by its content.
abbrev pub content_follows : ℕ → Descriptor → Bool
content_follows last d =
    (not (last == encoded Descriptor.inst_mem_access)
      || encoded d == encoded Descriptor.inst_mem_content)
    && (not (last == encoded Descriptor.bus_master_access)
        || encoded d == encoded Descriptor.bus_master_content)

write-content_follows :
    (r : Record) (w : StfWriter) {w' : StfWriter}
    → write r w ≡ ok w'
    → content_follows w.last_desc (get_id r) ≡ true
unfolding write
write-content_follows r w e = ground arith

write-placed :
    (r : Record) (w : StfWriter) {w' : StfWriter}
    → write r w ≡ ok w'
    → (if w.header_finalized then is_header_only (get_id r) else is_body_only r) ≡ false
unfolding write check_placement
write-placed (Record.identifier t) w e = ground arith
write-placed (Record.version a b) w e = ground arith
write-placed (Record.comment t) w e = ground arith
write-placed (Record.isa i) w e = ground arith
write-placed (Record.inst_iem m) w e = ground arith
write-placed (Record.trace_info i) w e = ground arith
write-placed (Record.trace_info_feature f) w e = ground arith
write-placed (Record.process_id_ext p) w e = ground arith
write-placed (Record.force_pc pc) w e = ground arith
write-placed (Record.vlen_config v) w e = ground arith
write-placed (Record.isa_extended t) w e = ground arith
write-placed Record.end_header w e = ground arith
write-placed (Record.body (Body.inst_pc_target contents)) w e = ground arith
write-placed (Record.body (Body.inst_reg contents)) w e = ground arith
write-placed (Record.body (Body.inst_ready_reg contents)) w e = ground arith
write-placed (Record.body (Body.page_table_walk contents)) w e = ground arith
write-placed (Record.body (Body.inst_mem_access contents)) w e = ground arith
write-placed (Record.body (Body.inst_mem_content contents)) w e = ground arith
write-placed (Record.body (Body.bus_master_access contents)) w e = ground arith
write-placed (Record.body (Body.bus_master_content contents)) w e = ground arith
write-placed (Record.body (Body.event contents)) w e = ground arith
write-placed (Record.body (Body.event_pc_target contents)) w e = ground arith
write-placed (Record.body (Body.inst_microop contents)) w e = ground arith
write-placed (Record.body (Body.inst_opcode32 contents)) w e = ground arith
write-placed (Record.body (Body.inst_opcode16 contents)) w e = ground arith
write-placed (Record.body (Body.protocol_id contents)) w e = ground arith
write-placed (Record.body (Body.clock contents)) w e = ground arith
write-placed (Record.body (Body.transaction contents)) w e = ground arith
write-placed (Record.body (Body.transaction_dependency contents)) w e = ground arith

pack-written :
    (r : Record) (s : OutStream) {s' : OutStream}
    → pack r s ≡ ok s'
    → s'.written ≡ s.written ++ (r ∷ [])
unfolding pack set_stream_vlen
pack-written (Record.identifier t) s e = ground arith
pack-written (Record.version a b) s e = ground arith
pack-written (Record.comment t) s e = ground arith
pack-written (Record.isa i) s e = ground arith
pack-written (Record.inst_iem m) s e = ground arith
pack-written (Record.trace_info i) s e = ground arith
pack-written (Record.trace_info_feature f) s e = ground arith
pack-written (Record.process_id_ext p) s e = ground arith
pack-written (Record.force_pc pc) s e = ground arith
pack-written (Record.vlen_config v) s e = ground arith
pack-written (Record.isa_extended t) s e = ground arith
pack-written Record.end_header s e = ground arith
pack-written (Record.body contents) s e = ground arith

write-written :
    (r : Record) (w : StfWriter) {w' : StfWriter}
    → write r w ≡ ok w'
    → (w'.stream.written ≡ w.stream.written ++ (r ∷ []))
      × (w'.last_desc ≡ encoded (get_id r))
      × (w'.header_finalized ≡ w.header_finalized)
unfolding write
write-written r w e = elim (result_cases (pack r (w.stream))) [
  | inl (s, h) ↦ ground (arith, h, pack-written r (w.stream) h)
  | inr (failure, h) ↦ ground (arith, h)
]

unfoldable pub contents_follow : ℕ → List Record → Bool
contents_follow last [] = true
contents_follow last (r ∷ rs) =
    let rest = contents_follow (encoded (get_id r)) rs in content_follows last (get_id r) && rest

unfoldable pub in_place : Bool → List Record → Bool
in_place finalized [] = true
in_place finalized (r ∷ rs) =
    let rest = in_place finalized rs in
    not (if finalized then is_header_only (get_id r) else is_body_only r) && rest

-- If the writer takes a list of records, they are what the trace grew by; in it the content
-- follows every memory access and every bus access that is not the last record, no record of
-- the body stands in the header, and no record that belongs to the header stands behind it.
pub write_all-ordered :
    (rs : List Record) (w : StfWriter) {w' : StfWriter}
    → write_all rs w ≡ ok w'
    → (w'.stream.written ≡ w.stream.written ++ rs)
      × (contents_follow w.last_desc rs ≡ true)
      × (in_place w.header_finalized rs ≡ true)
unfolding write_all contents_follow in_place
write_all-ordered [] w e = ground (arith, append-nil (w.stream.written))
write_all-ordered (r ∷ rs) w e = elim (result_cases (write r w)) [
  | inl (w1, h) ↦
      let (grown, last, same) = write-written r w h in
      let rest : write_all rs w1 ≡ ok _ =
        ap (λ (m : Result WriterError StfWriter). m >>= write_all rs) (sym h) ∙ e in
      let (written, follow, placed) = write_all-ordered rs w1 rest in
      ground (
        arith,
        grown,
        last,
        same,
        written,
        follow,
        placed,
        append_assoc (w.stream.written) (r ∷ []) rs,
        write-content_follows r w h,
        write-placed r w h,
      )
  | inr (failure, h) ↦ ground (arith, h)
]
