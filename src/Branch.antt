-- ===== src/Branch.antt =====
-- Branches of an instruction trace: the decoder of stf-inc/stf_branch_decoder.hpp and the item of
-- stf-inc/stf_branch.hpp.
pub mod Decoder
pub mod Encoding
pub mod Fields
pub mod Standard
pub mod Compressed
pub mod Item
pub mod Consistency
pub mod Operands
