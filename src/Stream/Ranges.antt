-- ===== src/Stream/Ranges.antt =====
-- The ranges of the members of the records of stf-inc/stf_record_types.hpp, by their types, and the
-- sizes of the containers that the types of their sizes can hold.
use stf_lib.Common.{
  ℕ, ◌+◌, ◌*◌, ◌^◌, ◌<◌, ◌≡◌, Bool, true, false, ◌==◌, bit_and, List, [], ◌∷◌, length, All,
}
use stf_lib.Record.{
  Record, Text, TraceInfo, ProcessId, Body, Pte, PageTableWalk, Event, InstReg, InstMemAccess,
  InstMicroOp, BusMasterAccess, Clock, Dependency, stf_contain_event64,
}
use stf_lib.Registers.{is_vector}
use stf_lib.Stream.Parses.{IsUint}

abbrev pub IsText : ℕ → Text → Type 0
IsText size_bytes t = IsUint size_bytes (length t) × All (IsUint 1) t

abbrev pub IsPte : Pte → Type 0
IsPte p = IsUint 8 p.pa × IsUint 8 p.pte

abbrev pub IsWalk : PageTableWalk → Type 0
IsWalk w =
    IsUint 8 w.va
    × IsUint 8 w.first_access_index
    × IsUint 4 w.page_size
    × IsUint 1 (length w.ptes)
    × All IsPte w.ptes

-- With 32 bits an event type has its number, below 2 to the 30, and the two top bits.
pub record IsNarrow (event_type : ℕ) : Type 0 where
  pub top : ℕ
  pub number : ℕ
  pub top_bits : top < 4
  pub number_bits : number < 2 ^ 30
  pub parts : event_type ≡ top * 2 ^ 62 + number

abbrev pub IsEventType : Bool → ℕ → Type 0
IsEventType true e = IsNarrow e
IsEventType false e = IsUint 8 e

abbrev pub IsEvent : Bool → Event → Type 0
IsEvent has_32bit_events e =
    IsEventType has_32bit_events e.event_type
    × IsUint 1 (length e.content)
    × All (IsUint 8) e.content

-- A register of a type below 16, with an operand type below 16; a scalar has one word.
abbrev pub NoWords : Bool → List ℕ → Type 0
NoWords true words = Unit
NoWords false words = words ≡ []

abbrev pub IsInstReg : InstReg → Type 0
IsInstReg r =
    (r.reg < 2 ^ 20)
    × (r.operand_type < 2 ^ 4)
    × IsUint 8 r.first_word
    × All (IsUint 8) r.more_words
    × NoWords (is_vector r.reg) r.more_words

abbrev pub IsInstMemAccess : InstMemAccess → Type 0
IsInstMemAccess a =
    IsUint 8 a.access_address
    × IsUint 2 a.access_size
    × IsUint 2 a.access_attr
    × IsUint 1 a.access_type

abbrev pub IsInstMicroOp : InstMicroOp → Type 0
IsInstMicroOp m = IsUint 1 m.microop_size × IsUint 4 m.microop

abbrev pub IsBusMasterAccess : BusMasterAccess → Type 0
IsBusMasterAccess a =
    IsUint 8 a.bus_address
    × IsUint 2 a.bus_size
    × IsUint 1 a.src_type
    × IsUint 1 a.src_idx
    × IsUint 4 a.bus_attr
    × IsUint 1 a.bus_access_type

abbrev pub IsClock : Clock → Type 0
IsClock c = IsUint 1 c.clock_id × IsText 2 c.clock_name

abbrev pub IsDependency : Dependency → Type 0
IsDependency d = IsUint 8 d.dependency_id × IsUint 8 d.cycle_delta × IsUint 1 d.dependency_clock

abbrev pub IsTraceInfo : TraceInfo → Type 0
IsTraceInfo i =
    IsUint 1 i.generator
    × IsUint 1 i.major_version
    × IsUint 1 i.minor_version
    × IsUint 1 i.minor_minor_version
    × IsText 2 i.comment

abbrev pub IsProcessId : ProcessId → Type 0
IsProcessId p = IsUint 4 p.hw_thread_id × IsUint 4 p.pid × IsUint 4 p.tid

-- A transaction is in no range: its contents are not read.
abbrev pub IsBody : Bool → Body → Type 0
IsBody b (Body.inst_pc_target a) = IsUint 8 a
IsBody b (Body.event_pc_target a) = IsUint 8 a
IsBody b (Body.inst_opcode32 o) = IsUint 4 o
IsBody b (Body.inst_opcode16 o) = IsUint 2 o
IsBody b (Body.inst_ready_reg r) = IsUint 2 r
IsBody b (Body.inst_mem_content d) = IsUint 8 d
IsBody b (Body.bus_master_content d) = IsUint 8 d
IsBody b (Body.protocol_id p) = IsUint 1 p
IsBody b (Body.inst_reg r) = IsInstReg r
IsBody b (Body.page_table_walk w) = IsWalk w
IsBody b (Body.inst_mem_access a) = IsInstMemAccess a
IsBody b (Body.bus_master_access a) = IsBusMasterAccess a
IsBody b (Body.event e) = IsEvent b e
IsBody b (Body.inst_microop m) = IsInstMicroOp m
IsBody b (Body.clock c) = IsClock c
IsBody b (Body.transaction t) = ⊥
IsBody b (Body.transaction_dependency d) = IsDependency d

abbrev pub InRange : Bool → Record → Type 0
InRange b (Record.identifier t) = (length t ≡ 3) × All (IsUint 1) t
InRange b (Record.version major minor) = IsUint 4 major × IsUint 4 minor
InRange b (Record.comment t) = IsText 4 t
InRange b (Record.isa i) = Unit
InRange b (Record.inst_iem m) = Unit
InRange b (Record.trace_info i) = IsTraceInfo i
InRange b (Record.trace_info_feature f) = IsUint 8 f
InRange b (Record.process_id_ext p) = IsProcessId p
InRange b (Record.force_pc pc) = IsUint 8 pc
InRange b (Record.vlen_config v) = IsUint 4 v
InRange b (Record.isa_extended t) = IsText 4 t
InRange b Record.end_header = Unit
InRange b (Record.body r) = IsBody b r

-- Whether the events that follow a record have 32 bits.
abbrev pub events_after : Bool → Record → Bool
events_after b (Record.trace_info_feature f) = bit_and f stf_contain_event64 == 0
events_after b (Record.identifier t) = b
events_after b (Record.version major minor) = b
events_after b (Record.comment t) = b
events_after b (Record.isa i) = b
events_after b (Record.inst_iem m) = b
events_after b (Record.trace_info i) = b
events_after b (Record.process_id_ext p) = b
events_after b (Record.force_pc pc) = b
events_after b (Record.vlen_config v) = b
events_after b (Record.isa_extended t) = b
events_after b Record.end_header = b
events_after b (Record.body r) = b

abbrev pub AllInRange : Bool → List Record → Type 0
AllInRange b [] = Unit
AllInRange b (rec ∷ records) = InRange b rec × AllInRange (events_after b rec) records
