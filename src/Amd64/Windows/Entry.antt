-- ===== src/Amd64/Windows/Entry.antt =====
-- What the code of src/arch/amd64/Windows.asm comes to: the switch, and the way from the first switch
-- into the entry point.
use mathlib.Core.List.{reverse}
use libcommunism.Base.{ℕ, ◌≡◌, refl, arith}
use libcommunism.Memory.{Memory}
use libcommunism.Impl.{word64}
use libcommunism.Machine.{State, exec}
use libcommunism.Machine.Stack.{Distinct}
use libcommunism.Machine.Switch.{Context, CanSwitch, Switched, switch_shape}
use libcommunism.Machine.Spill.{spill_shape, exec-spill_shape, spill_shape-Switches}
use libcommunism.Machine.Entry
use libcommunism.Machine.Frame.{HasRoom}
use libcommunism.Amd64.Object.{Amd64, Symbols, cothread_off_context_top}
use libcommunism.Amd64.Windows.{
  k_num_saved_registers, Reg, rax, rcx, rdx, Reg-discrete, saved_integers, saved_sse, saved,
  switch_code, jump_to_entry_code,
}
use libcommunism.Amd64.Windows.Life.{IsPrepared}

switch_code-shape :
    switch_code ≡ spill_shape word64 saved_integers saved_sse rcx rdx cothread_off_context_top
unfolding switch_code
switch_code-shape = refl

saved-Distinct : Distinct (reverse saved)
saved-Distinct = grind arith

-- Switch(from, to), in a state where the object `to` keeps a suspended context `c` (under the
-- conditions of `CanSwitch` on room, addresses and overlaps), suspends the caller's context, with
-- the integer registers and both halves of XMM6 to XMM15, under `from` and goes on in `c`; the
-- other registers and the rest of memory stay.
pub switch_code-Switched_win :
    (s : State Reg) (c : Context)
    → CanSwitch word64 cothread_off_context_top 28 (s.regs rcx) (s.regs rdx) s.sp s.mem c
    → Switched word64 cothread_off_context_top saved
        (s.regs rcx)
        c
        s
        (exec Reg-discrete word64 switch_code s)
switch_code-Switched_win s c k = rw switch_code-shape (
    spill_shape-Switches Reg-discrete word64 (omega arith) saved_integers saved_sse rcx rdx
      cothread_off_context_top saved-Distinct s c k)

-- Switch(from, to), in a state where the object `to` keeps a suspended context (under the conditions
-- of `CanSwitch` on room, addresses and overlaps), does what code would do that pushes the integer
-- registers and the halves of XMM6 to XMM15 one by one, exchanges the stacks and pops them in
-- reverse: memory, registers and the place at which the processor goes on are the same.
pub exec-switch_code_win :
    (s : State Reg) (c : Context)
    → CanSwitch word64 cothread_off_context_top 28 (s.regs rcx) (s.regs rdx) s.sp s.mem c
    → exec Reg-discrete word64 switch_code s
      ≡ exec Reg-discrete word64 (switch_shape saved rcx rdx cothread_off_context_top) s
exec-switch_code_win s c k = rw switch_code-shape (
    exec-spill_shape Reg-discrete word64 (omega arith) saved_integers saved_sse rcx rdx
      cothread_off_context_top saved-Distinct s c k)

-- Where a thread may first be switched to.
abbrev pub CanStart : Amd64 → State Reg → Type 0
CanStart wrap = Entry.CanStart word64 cothread_off_context_top saved rcx rdx wrap.this wrap.stack

-- The call of DereferenceCallInfo(info), with the return address of EntryReturnedStub.
abbrev pub IsEntered : Symbols → Amd64 → ℕ → State Reg → Type 0
IsEntered f wrap info =
    Entry.IsEntered word64 saved rcx f.dereference_call_info info f.entry_returned_stub wrap.stack

module _ (f : Symbols) (wrap : Amd64) (info : ℕ) (m : Memory) (s : State Reg)
    (room : HasRoom word64 cothread_off_context_top k_num_saved_registers wrap.this wrap.stack)
    (prepared : IsPrepared f wrap info m s.mem) (k : CanStart wrap s) where
  -- Where Prepare() has left a frame on a stack with room for it and the conditions of `CanStart`
  -- hold, Switch() and then JumpToEntry arrive at DereferenceCallInfo with the cothread's CallInfo
  -- as the argument in RCX, EntryReturnedStub as the return address, zeroed callee-saved integer
  -- and SSE registers, and the stack pointer within the cothread's stack, 8 bytes below an address
  -- that is aligned to 16 as the stack is.
  pub jump_to_entry-switch_code_win :
      IsEntered f wrap info
        (exec Reg-discrete word64 jump_to_entry_code (exec Reg-discrete word64 switch_code s))
  unfolding jump_to_entry_code
  jump_to_entry-switch_code_win =
      Entry.jump-IsEntered Reg-discrete word64 (omega arith) cothread_off_context_top saved rcx rdx
        switch_code switch_code-Switched_win f.entry_returned_stub info f.dereference_call_info
        f.jump_to_entry wrap.this wrap.stack m s room prepared k rax rcx (grind arith) (grind arith)
        (grind arith) (omega arith)
