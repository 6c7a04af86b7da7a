-- ===== src/Amd64.antt =====
-- src/arch/amd64: the class Amd64. `Object` has its state and constants, `Common` the methods
-- that both ABIs share, `SysV` and `Windows` those that each ABI defines.
pub mod Object
pub mod SysV
pub mod Windows
pub mod Common
pub mod Returned
