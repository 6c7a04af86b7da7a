-- ===== src/X86/Entry.antt =====
-- What the code of src/arch/x86/Common.cpp and Fastcall.S comes to: a prepared cothread, the switch,
-- and the way from the first switch into the entry point.
use mathlib.Core.List.{reverse}
use libcommunism.Base.{ℕ, ◌≡◌, refl, [], ◌∷◌, arith}
use libcommunism.Memory.{Memory}
use libcommunism.Impl.{word32}
use libcommunism.Machine.{State, exec}
use libcommunism.Machine.Cursor.{push_words}
use libcommunism.Machine.Stack.{Distinct}
use libcommunism.Machine.Switch.{Context, CanSwitch, Switched, switch_shape}
use libcommunism.Machine.Switch.Run.{exec-Switched}
use libcommunism.Machine.Entry
use libcommunism.Machine.Frame.{prepare_shape, HasRoom, Prepared, prepare_shape-Prepared}
use libcommunism.X86.{X86, Symbols, cothread_off_context_top}
use libcommunism.X86.{
  k_num_saved_registers, build_frame, Reg, eax, ecx, edx, Reg-discrete, saved, switch_code,
  jump_to_entry_code,
}

pub build_frame-shape :
    (f : Symbols) (wrap : X86) (info : ℕ) (m : Memory)
    → build_frame f wrap info m
      ≡ prepare_shape word32 cothread_off_context_top k_num_saved_registers
          (0 ∷ info ∷ f.dereference_call_info ∷ f.jump_to_entry ∷ [])
          wrap.this
          wrap.stack
          m
unfolding build_frame prepare_shape push_words
build_frame-shape f wrap info m = refl

pub switch_code-shape : switch_code ≡ switch_shape saved ecx edx cothread_off_context_top
unfolding switch_code switch_shape
switch_code-shape = refl

abbrev pub IsPrepared : Symbols → X86 → ℕ → Memory → Memory → Type 0
IsPrepared f wrap info =
    Prepared word32 cothread_off_context_top k_num_saved_registers 0 info f.dereference_call_info
      f.jump_to_entry wrap.this wrap.stack

pub build_frame-IsPrepared :
    (f : Symbols) (wrap : X86) (info : ℕ) (m : Memory)
    → HasRoom word32 cothread_off_context_top k_num_saved_registers wrap.this wrap.stack
    → IsPrepared f wrap info m (build_frame f wrap info m)
build_frame-IsPrepared f wrap info m room = rw (build_frame-shape f wrap info m) (
    prepare_shape-Prepared word32 (omega arith) cothread_off_context_top k_num_saved_registers 0
      info f.dereference_call_info f.jump_to_entry wrap.this wrap.stack m room)

pub saved-Distinct : Distinct (reverse saved)
saved-Distinct = grind arith

-- Switch(from, to), in a state where the object `to` keeps a suspended context `c` (under the
-- conditions of `CanSwitch` on room, addresses and overlaps), suspends the caller's context under
-- `from` and goes on in `c`; the other registers and the rest of memory stay.
pub switch_code-Switched_x86 :
    (s : State Reg) (c : Context)
    → CanSwitch word32 cothread_off_context_top 4 (s.regs ecx) (s.regs edx) s.sp s.mem c
    → Switched word32 cothread_off_context_top saved
        (s.regs ecx)
        c
        s
        (exec Reg-discrete word32 switch_code s)
switch_code-Switched_x86 s c k = rw switch_code-shape (
    exec-Switched Reg-discrete word32 (omega arith) saved ecx edx cothread_off_context_top s c k
      saved-Distinct)

-- Where a thread may first be switched to.
abbrev pub CanStart : X86 → State Reg → Type 0
CanStart wrap = Entry.CanStart word32 cothread_off_context_top saved ecx edx wrap.this wrap.stack

-- The call of DereferenceCallInfo(info), with the return address 0.
abbrev pub IsEntered : Symbols → X86 → ℕ → State Reg → Type 0
IsEntered f wrap info = Entry.IsEntered word32 saved ecx f.dereference_call_info info 0 wrap.stack

module _ (f : Symbols) (wrap : X86) (info : ℕ) (m : Memory) (s : State Reg)
    (room : HasRoom word32 cothread_off_context_top k_num_saved_registers wrap.this wrap.stack)
    (prepared : IsPrepared f wrap info m s.mem) (k : CanStart wrap s) where
  -- Where Prepare() has left a frame on a stack with room for it and the conditions of `CanStart`
  -- hold, Switch() and then JumpToEntry arrive at DereferenceCallInfo with the cothread's CallInfo
  -- as the argument in ECX, 0 as the return address, zeroed callee-saved registers, and the stack
  -- pointer within the cothread's stack, 4 bytes below an address that is aligned to 16 as the
  -- stack is.
  pub jump_to_entry_lem :
      IsEntered f wrap info
        (exec Reg-discrete word32 jump_to_entry_code (exec Reg-discrete word32 switch_code s))
  unfolding jump_to_entry_code
  jump_to_entry_lem =
      Entry.jump-IsEntered Reg-discrete word32 (omega arith) cothread_off_context_top saved ecx edx
        switch_code switch_code-Switched_x86 0 info f.dereference_call_info f.jump_to_entry
        wrap.this wrap.stack m s room prepared k eax ecx (grind arith) (grind arith) (grind arith)
        (omega arith)
