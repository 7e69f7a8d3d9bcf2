-- ===== src/Tests.antt =====
-- The theorems at concrete inputs.
mod Branch
mod Data
mod Writer
mod Memory
mod Buffer
mod Trace
mod Stream
mod File
mod RegState
