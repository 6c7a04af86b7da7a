-- ===== src/Amd64/SysV/Entry.antt =====
-- What the code of src/arch/amd64/SysV.cpp and SysV.S comes to: a prepared cothread, the switch,
-- and the way from the first switch into the entry point.
use mathlib.Core.List.{reverse}
use libcommunism.Base.{ℕ, ◌≡◌, refl, [], ◌∷◌, arith}
use libcommunism.Memory.{Memory}
use libcommunism.Impl.{word64}
use libcommunism.Machine.{State, exec}
use libcommunism.Machine.Cursor.{push_words}
use libcommunism.Machine.Stack.{Distinct}
use libcommunism.Machine.Switch.{Context, CanSwitch, Switched, switch_shape}
use libcommunism.Machine.Switch.Run.{exec-Switched}
use libcommunism.Machine.Entry
use libcommunism.Machine.Frame.{prepare_shape, HasRoom, Prepared, prepare_shape-Prepared}
use libcommunism.Amd64.Object.{Amd64, Symbols, cothread_off_context_top}
use libcommunism.Amd64.SysV.{
  k_num_saved_registers, build_frame, Reg, rax, rdi, rsi, Reg-discrete, saved, switch_code,
  jump_to_entry_code,
}

pub build_frame-shape :
    (f : Symbols) (wrap : Amd64) (info : ℕ) (m : Memory)
    → build_frame f wrap info m
      ≡ prepare_shape word64 cothread_off_context_top k_num_saved_registers
          (f.entry_returned_stub ∷ info ∷ f.dereference_call_info ∷ f.jump_to_entry ∷ [])
          wrap.this
          wrap.stack
          m
unfolding build_frame prepare_shape push_words
build_frame-shape f wrap info m = refl

pub switch_code-shape : switch_code ≡ switch_shape saved rdi rsi cothread_off_context_top
unfolding switch_code switch_shape
switch_code-shape = refl

abbrev pub IsPrepared : Symbols → Amd64 → ℕ → Memory → Memory → Type 0
IsPrepared f wrap info =
    Prepared word64 cothread_off_context_top k_num_saved_registers f.entry_returned_stub info
      f.dereference_call_info f.jump_to_entry wrap.this wrap.stack

pub build_frame-IsPrepared :
    (f : Symbols) (wrap : Amd64) (info : ℕ) (m : Memory)
    → HasRoom word64 cothread_off_context_top k_num_saved_registers wrap.this wrap.stack
    → IsPrepared f wrap info m (build_frame f wrap info m)
build_frame-IsPrepared f wrap info m room = rw (build_frame-shape f wrap info m) (
    prepare_shape-Prepared word64 (omega arith) cothread_off_context_top k_num_saved_registers
      f.entry_returned_stub info f.dereference_call_info f.jump_to_entry wrap.this wrap.stack m
      room)

pub saved-Distinct : Distinct (reverse saved)
saved-Distinct = grind arith

-- Switch(from, to), in a state where the object `to` keeps a suspended context `c` (under the
-- conditions of `CanSwitch` on room, addresses and overlaps), suspends the caller's context under
-- `from` and goes on in `c`; the other registers and the rest of memory stay.
pub switch_code-Switched :
    (s : State Reg) (c : Context)
    → CanSwitch word64 cothread_off_context_top 6 (s.regs rdi) (s.regs rsi) s.sp s.mem c
    → Switched word64 cothread_off_context_top saved
        (s.regs rdi)
        c
        s
        (exec Reg-discrete word64 switch_code s)
switch_code-Switched s c k = rw switch_code-shape (
    exec-Switched Reg-discrete word64 (omega arith) saved rdi rsi cothread_off_context_top s c k
      saved-Distinct)

-- Where a thread may first be switched to.
abbrev pub CanStart : Amd64 → State Reg → Type 0
CanStart wrap = Entry.CanStart word64 cothread_off_context_top saved rdi rsi wrap.this wrap.stack

-- The call of DereferenceCallInfo(info), with the return address of EntryReturnedStub.
abbrev pub IsEntered : Symbols → Amd64 → ℕ → State Reg → Type 0
IsEntered f wrap info =
    Entry.IsEntered word64 saved rdi f.dereference_call_info info f.entry_returned_stub wrap.stack

module _ (f : Symbols) (wrap : Amd64) (info : ℕ) (m : Memory) (s : State Reg)
    (room : HasRoom word64 cothread_off_context_top k_num_saved_registers wrap.this wrap.stack)
    (prepared : IsPrepared f wrap info m s.mem) (k : CanStart wrap s) where
  -- Where Prepare() has left a frame on a stack with room for it and the conditions of `CanStart`
  -- hold, Switch() and then JumpToEntry arrive at DereferenceCallInfo with the cothread's CallInfo
  -- as the argument, EntryReturnedStub as the return address, zeroed callee-saved registers, and
  -- the stack pointer within the cothread's stack, 8 bytes below an address that is aligned to 16
  -- as the stack is.
  pub entered :
      IsEntered f wrap info
        (exec Reg-discrete word64 jump_to_entry_code (exec Reg-discrete word64 switch_code s))
  unfolding jump_to_entry_code
  entered =
      Entry.jump-IsEntered Reg-discrete word64 (omega arith) cothread_off_context_top saved rdi rsi
        switch_code switch_code-Switched f.entry_returned_stub info f.dereference_call_info
        f.jump_to_entry wrap.this wrap.stack m s room prepared k rax rdi (grind arith) (grind arith)
        (grind arith) (omega arith)
