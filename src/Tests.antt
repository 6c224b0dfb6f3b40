-- ===== src/Tests.antt =====
-- Runs of the modelled code at single inputs, and the theorems at concrete arguments.
pub mod Arithmetic
pub mod Commands
pub mod Motors
pub mod Bus
pub mod Shell
pub mod Session
pub mod Program
