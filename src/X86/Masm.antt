-- ===== src/X86/Masm.antt =====
-- src/arch/x86/Fastcall.asm: the code for the assembler of Windows.
use libcommunism.Base.{◌≡◌, refl, List, [], ◌∷◌}
use libcommunism.Machine.{Instr, push, pop, store_sp, load_sp, ret, jmp}
use libcommunism.X86.{Reg, eax, ebx, ecx, edx, esi, edi, ebp}
use libcommunism.X86

unfoldable pub switch_code : List (Instr Reg)
switch_code =
    push ebx
    ∷ push esi
    ∷ push edi
    ∷ push ebp
    ∷ store_sp ecx 0x10
    ∷ load_sp edx 0x10
    ∷ pop ebp
    ∷ pop edi
    ∷ pop esi
    ∷ pop ebx
    ∷ ret
    ∷ []

unfoldable pub jump_to_entry_code : List (Instr Reg)
jump_to_entry_code = pop eax ∷ pop ecx ∷ jmp eax ∷ []

-- The two files have the same code.
pub switch_code-switch_code : switch_code ≡ X86.switch_code
unfolding switch_code X86.switch_code
switch_code-switch_code = refl

pub jump_to_entry_code-jump_to_entry_code : jump_to_entry_code ≡ X86.jump_to_entry_code
unfolding jump_to_entry_code X86.jump_to_entry_code
jump_to_entry_code-jump_to_entry_code = refl
