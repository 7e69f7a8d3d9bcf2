-- ===== src/Record.antt =====
-- The records of a trace: stf-inc/stf_record_types.hpp, those of the header here and the others as
-- the bodies of the child module. A text is the list of its characters.
mod Bodies
pub use Bodies.*
use stf_lib.Common.{ℕ, List, [], ◌∷◌}
use stf_lib.Descriptor.{Descriptor}
use stf_lib.Branch.Decoder.{InstIem}

abbrev pub Text : Type 0
Text = List ℕ

-- `ISA` of stf-inc/stf_enums.hpp.
pub data Isa : Type 0 where
  reserved riscv arm x86 power : Isa

-- TraceInfoRecord
pub record TraceInfo : Type 0 where
  pub generator : ℕ
  pub major_version : ℕ
  pub minor_version : ℕ
  pub minor_minor_version : ℕ
  pub comment : Text

-- ProcessIDExtRecord
pub record ProcessId : Type 0 where
  pub hw_thread_id : ℕ
  pub pid : ℕ
  pub tid : ℕ

pub data Record : Type 0 where
  identifier : Text → Record
  version : ℕ → ℕ → Record
  comment : Text → Record
  isa : Isa → Record
  inst_iem : InstIem → Record
  trace_info : TraceInfo → Record
  trace_info_feature : ℕ → Record
  process_id_ext : ProcessId → Record
  force_pc : ℕ → Record
  vlen_config : ℕ → Record
  isa_extended : Text → Record
  end_header : Record
  body : Body → Record

-- `getId`
abbrev pub get_id : Record → Descriptor
get_id (identifier t) = Descriptor.identifier
get_id (version major minor) = Descriptor.version
get_id (comment t) = Descriptor.comment
get_id (isa i) = Descriptor.isa
get_id (inst_iem m) = Descriptor.inst_iem
get_id (trace_info i) = Descriptor.trace_info
get_id (trace_info_feature f) = Descriptor.trace_info_feature
get_id (process_id_ext p) = Descriptor.process_id_ext
get_id (force_pc pc) = Descriptor.force_pc
get_id (vlen_config v) = Descriptor.vlen_config
get_id (isa_extended t) = Descriptor.isa_extended
get_id end_header = Descriptor.end_header
get_id (body b) = body_descriptor b

-- `STFIdentifierRecord::IDENT_STR_` and `isValid`.
abbrev pub ident_str : Text
ident_str = b'S' ∷ b'T' ∷ b'F' ∷ []

-- `TRACE_FEATURES::STF_CONTAIN_EVENT64`
abbrev pub stf_contain_event64 : ℕ
stf_contain_event64 = 0x80000
