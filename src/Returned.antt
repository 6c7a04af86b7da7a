-- ===== src/Returned.antt =====
-- What happens behind an entry point that has returned, on amd64, x86 and aarch64: Common.cpp of each
-- of src/arch/amd64, src/arch/x86 and src/arch/aarch64, with EntryReturnedStub() of SysV.S and
-- Windows.asm.
use libcommunism.X86.Returned as X86
use libcommunism.Aarch64.Returned as Aarch64
use libcommunism.Amd64.Returned as Amd64
use libcommunism.Amd64.SysV as SysV
use libcommunism.Amd64.Windows as Windows
