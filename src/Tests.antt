-- ===== src/Tests.antt =====
-- Concrete inputs on which the theorems' hypotheses hold.
pub mod Fixtures
pub mod Creation
pub mod Switching
pub mod Switching32
pub mod Threads
pub mod Threads32
pub mod Runs
pub mod Prepared
pub mod Lives
pub mod SwitchingWindows
pub mod ThreadsWindows
pub mod SwitchingAarch64
pub mod Jumps
pub mod Swaps
pub mod Cothreads
pub mod CothreadsWindows
pub mod Cothreads32
pub mod Started
pub mod Creation32
pub mod CreationAarch64
pub mod Interleavings
pub mod CothreadsAarch64
pub mod Programs
pub mod ProgramsUContext
pub mod StartedElsewhere
