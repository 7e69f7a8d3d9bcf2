-- ===== src/Stream/Structs.antt =====
-- What is written of the contents of each record is read back.
use stf_lib.Common.{
  ℕ, suc, ◌+◌, ◌-◌, ◌^◌, ◌<◌, ◌≡◌, sym, ap, ◌∙◌, arith, Bool, true, false, not, List, [], length,
  All, All-map, if◌then◌else◌, ◌*◌, ◌==◌, ==_iff, Ensures, gives, Ensures-bind, Ensures-asserted,
}
use stf_lib.Record.{
  Text, TraceInfo, ProcessId, Pte, PageTableWalk, Event, InstReg, InstMemAccess, InstMicroOp,
  BusMasterAccess, Clock, Dependency,
}
use stf_lib.Stream.{Fstream, vlen_missing, vlen_mismatch}
use stf_lib.Stream.Reads.{pure, read_uint}
use stf_lib.Stream.Writes.{write_uint, write_elements}
use stf_lib.Stream.Parses.{
  Parses, Parses-pure, Parses-equal, Parses-stream_state, Parses-check, Parses-then, Parses-bind,
  Parses-last, IsUint, Parses-read_uint, TakesBack, Parses-read_elements, Parses-read_container,
}
use stf_lib.Stream.Ranges.{
  IsText, IsPte, IsWalk, IsEventType, IsEvent, IsInstMemAccess, IsInstMicroOp, IsBusMasterAccess,
  NoWords, IsInstReg, IsClock, IsDependency, IsTraceInfo, IsProcessId,
}
use stf_lib.Stream.Events.{
  convert_to_32bit_event, convert_from_32bit_event, convert_to_32bit_event_lem,
  convert_from-convert_to,
}
use stf_lib.Registers.{is_vector, pack_reg_num, pack_reg_metadata}
use stf_lib.Registers.Codec.{pack_reg_num_lem, pack_reg_metadata_lem, decode-pack}
use mathlib.Core.Path.{subst}
use stf_lib.Stream.Pack.{
  calc_vector_len, pack_event, pack_more_words, pack_inst_reg, pack_text, pack_pte,
  pack_page_table_walk, pack_inst_mem_access, pack_inst_microop, pack_bus_master_access, pack_clock,
  pack_dependency, pack_trace_info, pack_process_id,
}
use stf_lib.Stream.Unpack.{
  unpack_event_type, unpack_event, unpack_more_words, unpack_inst_reg, unpack_text, unpack_pte,
  unpack_page_table_walk, unpack_inst_mem_access, unpack_inst_microop, unpack_bus_master_access,
  unpack_clock, unpack_dependency, unpack_trace_info, unpack_process_id,
}

number_fits : (r : InstReg) → IsUint 2 (pack_reg_num r.reg)
number_fits r = omega (arith, pack_reg_num_lem r.reg)

metadata_fits :
    (r : InstReg)
    → r.reg < 2 ^ 20
    → r.operand_type < 2 ^ 4
    → IsUint 1 (pack_reg_metadata r.reg r.operand_type)
metadata_fits r reg op = omega (arith, pack_reg_metadata_lem r.reg r.operand_type reg op)

module _ (s : Fstream) where
  pub Parses-words :
      (w : ℕ) (xs : List ℕ) → All (IsUint w) xs → All (TakesBack (read_uint w) (write_uint w) s) xs
  Parses-words w xs h = All-map (λ x hx. Parses-read_uint w x s hx) xs h

  pub Parses-text : (w : ℕ) (t : Text) → IsText w t → Parses (unpack_text w) s (pack_text w t) t s
  unfolding unpack_text pack_text
  Parses-text w t (size, chars) =
      Parses-read_container (read_uint 1) (write_uint 1) s w t size (Parses-words 1 t chars)

  Parses-pte : (p : Pte) → IsPte p → Parses unpack_pte s (pack_pte p) p s
  unfolding unpack_pte pack_pte
  Parses-pte p (a, b) =
      Parses-bind _ (Parses-read_uint 8 _ s a) (Parses-last _ (Parses-read_uint 8 _ s b))

  pub Parses-page_table_walk :
      (w : PageTableWalk) → IsWalk w → Parses unpack_page_table_walk s (pack_page_table_walk w) w s
  unfolding unpack_page_table_walk pack_page_table_walk
  Parses-page_table_walk w (a, b, c, size, ptes) = Parses-bind _ (Parses-read_uint 8 _ s a) (
      Parses-bind _ (Parses-read_uint 8 _ s b) (
        Parses-bind _ (Parses-read_uint 4 _ s c) (
          Parses-last _ (
            Parses-read_container unpack_pte pack_pte s 1 w.ptes size
              (All-map Parses-pte w.ptes ptes)))))

  pub Parses-inst_mem_access :
      (a : InstMemAccess)
      → IsInstMemAccess a
      → Parses unpack_inst_mem_access s (pack_inst_mem_access a) a s
  unfolding unpack_inst_mem_access pack_inst_mem_access
  Parses-inst_mem_access x (a, b, c, d) = Parses-bind _ (Parses-read_uint 8 _ s a) (
      Parses-bind _ (Parses-read_uint 2 _ s b)
        (Parses-bind _ (Parses-read_uint 2 _ s c) (Parses-last _ (Parses-read_uint 1 _ s d))))

  pub Parses-inst_microop :
      (m : InstMicroOp) → IsInstMicroOp m → Parses unpack_inst_microop s (pack_inst_microop m) m s
  unfolding unpack_inst_microop pack_inst_microop
  Parses-inst_microop m (a, b) =
      Parses-bind _ (Parses-read_uint 1 _ s a) (Parses-last _ (Parses-read_uint 4 _ s b))

  pub Parses-bus_master_access :
      (a : BusMasterAccess)
      → IsBusMasterAccess a
      → Parses unpack_bus_master_access s (pack_bus_master_access a) a s
  unfolding unpack_bus_master_access pack_bus_master_access
  Parses-bus_master_access x (a, b, c, d, e, f) = Parses-bind _ (Parses-read_uint 8 _ s a) (
      Parses-bind _ (Parses-read_uint 2 _ s b) (
        Parses-bind _ (Parses-read_uint 1 _ s c) (
          Parses-bind _ (Parses-read_uint 1 _ s d)
            (Parses-bind _ (Parses-read_uint 4 _ s e) (Parses-last _ (Parses-read_uint 1 _ s f))))))

  pub Parses-clock : (c : Clock) → IsClock c → Parses unpack_clock s (pack_clock c) c s
  unfolding unpack_clock pack_clock
  Parses-clock c (a, b) =
      Parses-bind _ (Parses-read_uint 1 _ s a) (Parses-last _ (Parses-text 2 c.clock_name b))

  pub Parses-dependency :
      (d : Dependency) → IsDependency d → Parses unpack_dependency s (pack_dependency d) d s
  unfolding unpack_dependency pack_dependency
  Parses-dependency d (a, b, c) =
      Parses-bind _ (Parses-read_uint 8 _ s a)
        (Parses-bind _ (Parses-read_uint 8 _ s b) (Parses-last _ (Parses-read_uint 1 _ s c)))

  pub Parses-trace_info :
      (i : TraceInfo) → IsTraceInfo i → Parses unpack_trace_info s (pack_trace_info i) i s
  unfolding unpack_trace_info pack_trace_info
  Parses-trace_info i (a, b, c, d, e) = Parses-bind _ (Parses-read_uint 1 _ s a) (
      Parses-bind _ (Parses-read_uint 1 _ s b) (
        Parses-bind _ (Parses-read_uint 1 _ s c)
          (Parses-bind _ (Parses-read_uint 1 _ s d) (Parses-last _ (Parses-text 2 i.comment e)))))

  pub Parses-process_id :
      (p : ProcessId) → IsProcessId p → Parses unpack_process_id s (pack_process_id p) p s
  unfolding unpack_process_id pack_process_id
  Parses-process_id p (a, b, c) =
      Parses-bind _ (Parses-read_uint 4 _ s a)
        (Parses-bind _ (Parses-read_uint 4 _ s b) (Parses-last _ (Parses-read_uint 4 _ s c)))

  Parses-narrow_event :
      (e top number : ℕ)
      → top < 4
      → number < 2 ^ 30
      → e ≡ top * 2 ^ 62 + number
      → Parses (unpack_event_type true) s (write_uint 4 (convert_to_32bit_event e)) e s
  unfolding unpack_event_type
  Parses-narrow_event e top number ht hn he =
      subst
        (λ (v : ℕ). Parses (unpack_event_type true) s (write_uint 4 (convert_to_32bit_event e)) v s)
        (ap (λ (v : ℕ). convert_from_32bit_event (convert_to_32bit_event v)) he
          ∙ (convert_from-convert_to top number ht hn ∙ sym he))
        (Parses-last _ (
          Parses-read_uint 4 (convert_to_32bit_event e) s
            (rw he (rw (convert_to_32bit_event_lem top number ht hn) (omega arith)))))

  Parses-wide_event : (e : ℕ) → IsUint 8 e → Parses (unpack_event_type false) s (write_uint 8 e) e s
  unfolding unpack_event_type
  Parses-wide_event e h = Parses-read_uint 8 e s h

  Parses-event_type :
      (e : ℕ) (b : Bool)
      → IsEventType b e
      → Parses
          (unpack_event_type b)
          s
          (if b then write_uint 4 (convert_to_32bit_event e) else write_uint 8 e)
          e
          s
  Parses-event_type e true h = Parses-narrow_event e h.top h.number h.top_bits h.number_bits h.parts
  Parses-event_type e false h = Parses-wide_event e h

  pub Parses-event :
      (e : Event)
      → IsEvent (s.has_32bit_events) e
      → Parses unpack_event s (pack_event (s.has_32bit_events) e) e s
  unfolding unpack_event pack_event
  Parses-event e (a, size, content) = Parses-bind _ (Parses-stream_state s) (
      Parses-bind _ (Parses-event_type e.event_type s.has_32bit_events a) (
        Parses-last _ (
          Parses-read_container (read_uint 8) (write_uint 8) s 1 e.content size
            (Parses-words 8 e.content content))))

  Parses-vector_words :
      (vlen : ℕ) (words : List ℕ)
      → All (IsUint 8) words
      → (not (vlen == 0)) ≡ true
      → calc_vector_len vlen - 1 ≡ length words
      → Parses (unpack_more_words true vlen) s (write_elements (write_uint 8) words) words s
  unfolding unpack_more_words
  Parses-vector_words vlen words h has_vlen fits =
      Parses-then (Parses-check (not (vlen == 0)) vlen_missing s has_vlen) (
        rw fits
          (Parses-read_elements (read_uint 8) (write_uint 8) s words (Parses-words 8 words h)))

  Parses-more_words :
      (b : Bool) (vlen : ℕ) (words : List ℕ)
      → All (IsUint 8) words
      → NoWords b words
      → Ensures
          (λ bytes. Parses (unpack_more_words b vlen) s bytes words s)
          (pack_more_words b vlen words)
  unfolding pack_more_words unpack_more_words
  Parses-more_words false vlen words h alone =
      gives [] (subst (λ (ws : List ℕ). Parses (pure []) s [] ws s) (sym alone) (Parses-pure [] s))
  Parses-more_words true vlen words h alone =
      Ensures-asserted (not (vlen == 0)) vlen_missing (λ has_vlen.
        Ensures-asserted (calc_vector_len vlen == suc (length words)) vlen_mismatch (λ fits.
          gives _ (Parses-vector_words vlen words h has_vlen (omega (arith, (==_iff _ _).0 fits)))))

  pub Parses-inst_reg :
      (r : InstReg)
      → IsInstReg r
      → Ensures (λ bytes. Parses unpack_inst_reg s bytes r s) (pack_inst_reg s r)
  unfolding unpack_inst_reg pack_inst_reg
  Parses-inst_reg r (reg, op, first, words, alone) =
      Ensures-bind _ (Parses-more_words (is_vector r.reg) s.vlen r.more_words words alone)
        (λ more back. gives _ (
          Parses-bind _ (Parses-read_uint 2 (pack_reg_num r.reg) s (number_fits r)) (
            Parses-bind _
              (Parses-read_uint 1 (pack_reg_metadata r.reg r.operand_type) s
                (metadata_fits r reg op))
              (Parses-bind _ (Parses-read_uint 8 r.first_word s first) (
                Parses-bind _
                  (Parses-equal _ (r.reg, r.operand_type) s
                    (decode-pack r.reg r.operand_type reg op))
                  (Parses-bind _ (Parses-stream_state s) (Parses-last _ back)))))))
