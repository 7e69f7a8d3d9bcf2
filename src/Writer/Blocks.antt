-- ===== src/Writer/Blocks.antt =====
-- `operator<<` of lib/stf_writer.cpp on one record or a list of records of one type, for a header
-- that is under way.
use stf_lib.Common.{ℕ, ◌≤◌, ◌≡◌, ◌∙◌, arith, true, false, if◌then◌else◌}
use stf_lib.Common.{List, [], ◌∷◌, ◌++◌, map, Option, none, some, ok}
use stf_lib.Descriptor.{encoded, is_instruction_record}
use stf_lib.Record.{Record, get_id}
use stf_lib.Writer.{StfWriter, write, write_all, pack, in_order, check_placement}
use stf_lib.Writer.Header.{is_empty}
use mathlib.Core.List.{append-nil, append_assoc}

-- A header is under way, and the last record was one of the header's.
abbrev pub IsUnderWay : StfWriter → Type 0
IsUnderWay w =
    (w.header_started ≡ true)
    × (w.header_finalized ≡ false)
    × (w.wrote_event_record_group ≡ false)
    × (w.wrote_page_table_walk ≡ false)
    × (w.wrote_reg ≡ false)

-- The writer after it wrote `rs`, the last of them encoded as `last`.
abbrev pub after : List Record → ℕ → StfWriter → StfWriter
after rs last w = record w {
  stream = record (w.stream) { written = w.stream.written ++ rs };
  last_desc = last;
}

-- The descriptors of the header, from the comment to the end.
abbrev pub IsPlain : Record → Type 0
IsPlain (Record.comment t) = Unit
IsPlain (Record.isa i) = Unit
IsPlain (Record.inst_iem m) = Unit
IsPlain (Record.trace_info i) = Unit
IsPlain (Record.process_id_ext p) = Unit
IsPlain (Record.force_pc pc) = Unit
IsPlain (Record.isa_extended t) = Unit
IsPlain Record.end_header = Unit
IsPlain r = ⊥

pub write-plain :
    (r : Record) (w : StfWriter)
    → IsPlain r
    → IsUnderWay w
    → w.last_desc ≤ encoded (get_id r)
    → write r w ≡ ok (after (r ∷ []) (encoded (get_id r)) w)
unfolding write pack in_order check_placement encoded is_instruction_record
write-plain (Record.comment t) w p u h = ground arith
write-plain (Record.isa i) w p u h = ground arith
write-plain (Record.inst_iem m) w p u h = ground arith
write-plain (Record.trace_info i) w p u h = ground arith
write-plain (Record.process_id_ext i) w p u h = ground arith
write-plain (Record.force_pc pc) w p u h = ground arith
write-plain (Record.isa_extended t) w p u h = ground arith
write-plain Record.end_header w p u h = ground arith
write-plain (Record.identifier t) w p u h = absurd p
write-plain (Record.version a b) w p u h = absurd p
write-plain (Record.trace_info_feature f) w p u h = absurd p
write-plain (Record.vlen_config v) w p u h = absurd p
write-plain (Record.body contents) w p u h = absurd p

-- The writer after it wrote the list `rs`, all encoded as `last`.
abbrev pub emit : List Record → ℕ → StfWriter → StfWriter
emit rs last w = after rs (if is_empty rs then w.last_desc else last) w

pub write_map {ℓ} :
    {A : Type ℓ} (f : A → Record) (d : ℕ)
    → ((x : A) → IsPlain (f x))
    → ((x : A) → encoded (get_id (f x)) ≡ d)
    → (xs : List A) (w : StfWriter) → IsUnderWay w
    → w.last_desc ≤ d
    → write_all (map f xs) w ≡ ok (emit (map f xs) d w)
unfolding write_all
write_map f d plain same [] w u h = ground (arith, append-nil (w.stream.written))
write_map f d plain same (x ∷ xs) w u h =
    let e : encoded (get_id (f x)) ≡ d = same x in
    rw (write-plain (f x) w (plain x) u (rw e h), e)
      (write_map f d plain same xs (after (f x ∷ []) d w) u (omega arith)
        ∙ ground (arith, append_assoc (w.stream.written) (f x ∷ []) (map f xs)))

-- The record of a value that may be missing.
abbrev pub option_records {ℓ} : {A : Type ℓ} → (A → Record) → Option A → List Record
option_records f none = []
option_records f (some x) = f x ∷ []
