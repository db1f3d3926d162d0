-- ===== src/TypeC.antt =====
-- src/max77958.c, the Type-C controller. The controller's registers and messages, the opcodes and
-- their queue, the interrupts, and the unit tests have a module each.
pub mod Config
pub mod Registers
pub mod Opcodes
pub mod Interrupts
pub mod Waits
pub mod Checks
pub mod Start
pub mod Holds
pub mod Fifo
pub mod Fields
pub mod Lost
pub mod Decode
pub mod Marks
pub mod Serve
mod Tests
pub mod Samples
