-- ===== src/Tests.antt =====
-- Runs on concrete files, and the theorems at concrete inputs.
pub mod Editor
mod Undo
mod Lines
mod Marks
mod Ranges
mod Delete
mod Cut
mod Put
mod Match
mod Seq
mod ExLines
