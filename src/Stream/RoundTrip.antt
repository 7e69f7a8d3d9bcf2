-- ===== src/Stream/RoundTrip.antt =====
-- A trace of records is read back from its bytes.
use stf_lib.Common.{
  ℕ, ◌==◌, ◌≡◌, refl, sym, arith, List, ok, Ensures, gives, throws, Ensures-bind, bit_and,
  result_cases, inl, inr, some,
}
use mathlib.Core.Path.{subst}
use stf_lib.Branch.Decoder.{InstIem}
use stf_lib.PcTracker.{PcRecord}
use stf_lib.Record.{Record, Isa, Body, get_id, stf_contain_event64}
use stf_lib.Stream.{Fstream, StreamError, set_fstream_vlen, track_pc, marker_record_callback}
use stf_lib.Stream.Reads.{Read, read_uint, read_elements}
use stf_lib.Stream.Writes.{write_uint, write_elements}
use stf_lib.Stream.Parses.{
  Parses, Parses-pure, Parses-bind, Parses-finish, Parses-last, Parses-then, Parses-change,
  Parses-known, IsUint, Parses-read_uint, Parses-read_elements,
}
use stf_lib.Stream.Ranges.{IsBody, InRange, events_after}
use stf_lib.Stream.Pack.{pack_impl, pack_body, isa_number, iem_number}
use stf_lib.Stream.Unpack.{
  isa_of, iem_of, unpack_impl, unpack_pc_target, unpack_opcode, unpack_isa, unpack_iem,
  unpack_features, unpack_protocol, as_record,
}
use stf_lib.Stream.Structs.{
  Parses-words, Parses-text, Parses-page_table_walk, Parses-inst_mem_access, Parses-inst_microop,
  Parses-bus_master_access, Parses-clock, Parses-dependency, Parses-trace_info, Parses-process_id,
  Parses-event, Parses-inst_reg,
}

-- The bytes of a record, and the state after it, as reading finds them.
pub record ReadBack (s : Fstream) (rec : Record) (written : Fstream × List ℕ) : Type 0 where
  pub reads : Parses (unpack_impl (get_id rec)) s written.1 rec written.0
  pub events : (written.0).has_32bit_events ≡ events_after s.has_32bit_events rec

-- Setting the vector length leaves the width of the events.
set_fstream_vlen-events :
    (s : Fstream) (v : ℕ)
    → Ensures
        (λ s'. (set_fstream_vlen s v ≡ ok s') × (s'.has_32bit_events ≡ s.has_32bit_events))
        (set_fstream_vlen s v)
unfolding set_fstream_vlen
set_fstream_vlen-events s v = elim (result_cases (set_fstream_vlen s v)) [
  | inl (s', set) ↦ rw set (gives s' (refl, ground (arith, set)))
  | inr (e, failed) ↦ rw failed (throws e)
]

isa_fits : (i : Isa) → IsUint 2 (isa_number i)
isa_fits i = ground arith

isa_of_number : (i : Isa) → isa_of (isa_number i) ≡ some i
isa_of_number Isa.reserved = refl
isa_of_number _ = refl

iem_fits : (m : InstIem) → IsUint 2 (iem_number m)
iem_fits m = ground arith

iem_of_number : (m : InstIem) → iem_of (iem_number m) ≡ some m
iem_of_number InstIem.invalid = refl
iem_of_number _ = refl

module _ (s : Fstream) where
  Parses-pc_target :
      (rec : ℕ → PcRecord) (address : ℕ)
      → IsUint 8 address
      → Parses (unpack_pc_target rec) s (write_uint 8 address) address (track_pc s (rec address))
  Parses-pc_target rec address h =
      Parses-finish _ (Parses-read_uint 8 address s h)
        (Parses-then (Parses-change _ s refl) (Parses-pure address _))

  Parses-opcode :
      (size opcode : ℕ)
      → IsUint size opcode
      → Parses
          (unpack_opcode size)
          s
          (write_uint size opcode)
          opcode
          (marker_record_callback (track_pc s (PcRecord.opcode_record size)))
  Parses-opcode size opcode h =
      Parses-finish _ (Parses-read_uint size opcode s h)
        (Parses-then (Parses-change _ s refl) (Parses-pure opcode _))

  Parses-features :
      (f : ℕ)
      → IsUint 8 f
      → Parses unpack_features s
          (write_uint 8 f)
          f
          (record s { has_32bit_events = bit_and f stf_contain_event64 == 0 })
  Parses-features f h =
      Parses-finish _ (Parses-read_uint 8 f s h)
        (Parses-then (Parses-change _ s refl) (Parses-pure f _))

  Parses-protocol :
      (p : ℕ) → IsUint 1 p → Parses unpack_protocol s (write_uint 1 p) p (record s { protocol = p })
  Parses-protocol p h =
      Parses-finish _ (Parses-read_uint 1 p s h)
        (Parses-then (Parses-change _ s refl) (Parses-pure p _))

  Parses-isa : (i : Isa) → Parses unpack_isa s (write_uint 2 (isa_number i)) i s
  Parses-isa i =
      Parses-finish _ (Parses-read_uint 2 (isa_number i) s (isa_fits i))
        (rw (isa_of_number i) (Parses-known i s))

  Parses-iem : (m : InstIem) → Parses unpack_iem s (write_uint 2 (iem_number m)) m s
  Parses-iem m =
      Parses-finish _ (Parses-read_uint 2 (iem_number m) s (iem_fits m))
        (rw (iem_of_number m) (Parses-known m s))

  -- A record that is written without an assertion.
  back :
      (rec : Record) (s' : Fstream) (bytes : List ℕ)
      → Parses (unpack_impl (get_id rec)) s bytes rec s'
      → s'.has_32bit_events ≡ events_after s.has_32bit_events rec
      → Ensures {E = StreamError} (ReadBack s rec) (ok (s', bytes))
  back rec s' bytes h e = gives _ (record { reads = h; events = e })

  -- A record of one member.
  made {ℓ} :
      {A : Type ℓ} (make : A → Record) {read : Read A} {s' : Fstream} {bytes : List ℕ} {a : A}
      → Parses read s bytes a s'
      → unpack_impl (get_id (make a)) ≡ as_record make read
      → s'.has_32bit_events ≡ events_after s.has_32bit_events (make a)
      → Ensures {E = StreamError} (ReadBack s (make a)) (ok (s', bytes))
  made make {read} {s'} {bytes} {a} h same e =
      back (make a) s' bytes
        (subst (λ (r : Read Record). Parses r s bytes (make a) s') (sym same) (Parses-last make h))
        e

  Parses-body :
      (b : Body)
      → IsBody (s.has_32bit_events) b
      → Ensures (ReadBack s (Record.body b)) (pack_body s b)
  unfolding pack_body unpack_impl
  Parses-body (Body.inst_pc_target a) h =
      made (λ x. Record.body (Body.inst_pc_target x))
        (Parses-pc_target PcRecord.pc_target_record a h) refl refl
  Parses-body (Body.event_pc_target a) h =
      made (λ x. Record.body (Body.event_pc_target x))
        (Parses-pc_target PcRecord.pc_target_record a h) refl refl
  Parses-body (Body.inst_opcode32 o) h =
      made (λ x. Record.body (Body.inst_opcode32 x)) (Parses-opcode 4 o h) refl refl
  Parses-body (Body.inst_opcode16 o) h =
      made (λ x. Record.body (Body.inst_opcode16 x)) (Parses-opcode 2 o h) refl refl
  Parses-body (Body.inst_ready_reg r) h =
      made (λ x. Record.body (Body.inst_ready_reg x)) (Parses-read_uint 2 r s h) refl refl
  Parses-body (Body.inst_mem_content d) h =
      made (λ x. Record.body (Body.inst_mem_content x)) (Parses-read_uint 8 d s h) refl refl
  Parses-body (Body.bus_master_content d) h =
      made (λ x. Record.body (Body.bus_master_content x)) (Parses-read_uint 8 d s h) refl refl
  Parses-body (Body.protocol_id p) h =
      made (λ x. Record.body (Body.protocol_id x)) (Parses-protocol p h) refl refl
  Parses-body (Body.inst_reg r) h =
      Ensures-bind _ (Parses-inst_reg s r h)
        (λ bytes reads. made (λ x. Record.body (Body.inst_reg x)) reads refl refl)
  Parses-body (Body.page_table_walk w) h =
      made (λ x. Record.body (Body.page_table_walk x)) (Parses-page_table_walk s w h) refl refl
  Parses-body (Body.inst_mem_access a) h =
      made (λ x. Record.body (Body.inst_mem_access x)) (Parses-inst_mem_access s a h) refl refl
  Parses-body (Body.bus_master_access a) h =
      made (λ x. Record.body (Body.bus_master_access x)) (Parses-bus_master_access s a h) refl refl
  Parses-body (Body.event e) h =
      made (λ x. Record.body (Body.event x)) (Parses-event s e h) refl refl
  Parses-body (Body.inst_microop m) h =
      made (λ x. Record.body (Body.inst_microop x)) (Parses-inst_microop s m h) refl refl
  Parses-body (Body.clock c) h =
      made (λ x. Record.body (Body.clock x)) (Parses-clock s c h) refl refl
  Parses-body (Body.transaction t) h = absurd h
  Parses-body (Body.transaction_dependency d) h =
      made (λ x. Record.body (Body.transaction_dependency x)) (Parses-dependency s d h) refl refl

  Parses-vlen :
      (v : ℕ)
      → IsUint 4 v
      → Ensures (ReadBack s (Record.vlen_config v)) (pack_impl s (Record.vlen_config v))
  unfolding pack_impl unpack_impl
  Parses-vlen v h = Ensures-bind _ (set_fstream_vlen-events s v) (λ s' (set, events).
      made Record.vlen_config
        (Parses-finish _ (Parses-read_uint 4 v s h)
          (Parses-then (Parses-change _ s set) (Parses-pure v s')))
        refl events)

  pub Parses-impl :
      (rec : Record) → InRange (s.has_32bit_events) rec → Ensures (ReadBack s rec) (pack_impl s rec)
  unfolding pack_impl unpack_impl
  Parses-impl (Record.identifier t) (size, chars) =
      made Record.identifier
        (subst
          (λ (n : ℕ).
            Parses (read_elements n (read_uint 1)) s (write_elements (write_uint 1) t) t s)
          size (Parses-read_elements (read_uint 1) (write_uint 1) s t (Parses-words s 1 t chars)))
        refl refl
  Parses-impl (Record.version major minor) (a, b) =
      back (Record.version major minor) _ _
        (Parses-bind _ (Parses-read_uint 4 major s a)
          (Parses-last _ (Parses-read_uint 4 minor s b)))
        refl
  Parses-impl (Record.comment t) h = made Record.comment (Parses-text s 4 t h) refl refl
  Parses-impl (Record.isa i) h = made Record.isa (Parses-isa i) refl refl
  Parses-impl (Record.inst_iem m) h = made Record.inst_iem (Parses-iem m) refl refl
  Parses-impl (Record.trace_info i) h = made Record.trace_info (Parses-trace_info s i h) refl refl
  Parses-impl (Record.trace_info_feature f) h =
      made Record.trace_info_feature (Parses-features f h) refl refl
  Parses-impl (Record.process_id_ext p) h =
      made Record.process_id_ext (Parses-process_id s p h) refl refl
  Parses-impl (Record.force_pc pc) h =
      made Record.force_pc (Parses-pc_target PcRecord.force_pc_record pc h) refl refl
  Parses-impl (Record.vlen_config v) h = Parses-vlen v h
  Parses-impl (Record.isa_extended t) h = made Record.isa_extended (Parses-text s 4 t h) refl refl
  Parses-impl Record.end_header h = back Record.end_header _ _ (Parses-pure _ s) refl
  Parses-impl (Record.body b) h = Parses-body b h
