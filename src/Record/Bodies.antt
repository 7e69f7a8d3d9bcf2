-- ===== src/Record/Bodies.antt =====
-- The records of stf-inc/stf_record_types.hpp that do not stand in the header of an instruction
-- trace. A member of an enumeration that the library only passes along is its number. The bytes of a
-- transaction stand for its metadata and its protocol data.
use stf_lib.Common.{ℕ, List}
use stf_lib.Descriptor.{Descriptor}

-- PageTableWalkRecord and its class PTE.
pub record Pte : Type 0 where
  pub pa : ℕ
  pub pte : ℕ

pub record PageTableWalk : Type 0 where
  pub va : ℕ
  pub first_access_index : ℕ
  pub page_size : ℕ
  pub ptes : List Pte

-- EventRecord
pub record Event : Type 0 where
  pub event_type : ℕ
  pub content : List ℕ

-- InstRegRecord; its constructors refuse a register without a word.
pub record InstReg : Type 0 where
  pub reg : ℕ
  pub operand_type : ℕ
  pub first_word : ℕ
  pub more_words : List ℕ

-- InstMemAccessRecord
pub record InstMemAccess : Type 0 where
  pub access_address : ℕ
  pub access_size : ℕ
  pub access_attr : ℕ
  pub access_type : ℕ

-- InstMicroOpRecord
pub record InstMicroOp : Type 0 where
  pub microop_size : ℕ
  pub microop : ℕ

-- BusMasterAccessRecord
pub record BusMasterAccess : Type 0 where
  pub bus_address : ℕ
  pub bus_size : ℕ
  pub src_type : ℕ
  pub src_idx : ℕ
  pub bus_attr : ℕ
  pub bus_access_type : ℕ

-- ClockIdRecord
pub record Clock : Type 0 where
  pub clock_id : ℕ
  pub clock_name : List ℕ

-- TransactionDependencyRecord
pub record Dependency : Type 0 where
  pub dependency_id : ℕ
  pub cycle_delta : ℕ
  pub dependency_clock : ℕ

pub data Body : Type 0 where
  inst_pc_target inst_ready_reg inst_mem_content bus_master_content : ℕ → Body
  event_pc_target inst_opcode32 inst_opcode16 protocol_id : ℕ → Body
  inst_reg : InstReg → Body
  page_table_walk : PageTableWalk → Body
  inst_mem_access : InstMemAccess → Body
  bus_master_access : BusMasterAccess → Body
  event : Event → Body
  inst_microop : InstMicroOp → Body
  clock : Clock → Body
  transaction : List ℕ → Body
  transaction_dependency : Dependency → Body

abbrev pub body_descriptor : Body → Descriptor
body_descriptor (inst_pc_target a) = Descriptor.inst_pc_target
body_descriptor (inst_ready_reg r) = Descriptor.inst_ready_reg
body_descriptor (inst_mem_content d) = Descriptor.inst_mem_content
body_descriptor (bus_master_content d) = Descriptor.bus_master_content
body_descriptor (event_pc_target a) = Descriptor.event_pc_target
body_descriptor (inst_opcode32 o) = Descriptor.inst_opcode32
body_descriptor (inst_opcode16 o) = Descriptor.inst_opcode16
body_descriptor (protocol_id p) = Descriptor.protocol_id
body_descriptor (inst_reg r) = Descriptor.inst_reg
body_descriptor (page_table_walk w) = Descriptor.page_table_walk
body_descriptor (inst_mem_access a) = Descriptor.inst_mem_access
body_descriptor (bus_master_access a) = Descriptor.bus_master_access
body_descriptor (event e) = Descriptor.event
body_descriptor (inst_microop m) = Descriptor.inst_microop
body_descriptor (clock c) = Descriptor.clock_id
body_descriptor (transaction t) = Descriptor.transaction
body_descriptor (transaction_dependency d) = Descriptor.transaction_dependency
