-- ===== src/Amd64/SysV.antt =====
-- src/arch/amd64/SysV.cpp and src/arch/amd64/SysV.S: the System V ABI.
pub mod Entry
pub mod Life
pub mod Bounds
pub mod Threads
pub mod Start
pub mod Cothreads
use libcommunism.Base.{
  ℕ, ◌+◌, ◌*◌, ◌%◌, ◌≡◌, refl, Outcome, ok, throws, size_may_not_be_nil, stack_is_misaligned,
  posix_memalign_failed, failed_to_allocate_call_info, List, [], ◌∷◌, arith, ◌==◌, not,
  if◌then◌else◌,
}
use libcommunism.Memory.{Memory, write}
use libcommunism.Span.{Span}
use libcommunism.Impl.{word64}
use libcommunism.Heap.{Allocator, Process}
use libcommunism.Machine.{
  State, Instr, push, pop, store_sp, load_sp, sub_sp, move_sp, ret, jmp, call,
}
use libcommunism.Machine.Switch.{call_switch}
use libcommunism.Machine.Cursor.{Cursor, push_word}
use libcommunism.Machine.Frame.{frame_start, push_zeros}
use libcommunism.Amd64.Object.{Amd64, Symbols, k_stack_alignment, cothread_off_context_top}

abbrev pub k_num_saved_registers : ℕ
k_num_saved_registers = 6

unfoldable pub validate_stack_size : ℕ → Outcome (Unit {0})
validate_stack_size size =
    if size == 0
    then throws size_may_not_be_nil
    else (if not (size % k_stack_alignment == 0) then throws stack_is_misaligned else ok tt)

module _ {E : Type 0} (a : Allocator E) where
  unfoldable pub alloc_stack : ℕ → Process a → Outcome (ℕ × Process a)
  alloc_stack bytes p =
      let (heap, err, buf) = a.posix_memalign k_stack_alignment bytes p.heap in
      if not (err == 0) then throws posix_memalign_failed else ok (buf, record p { heap = heap })

  unfoldable pub dealloc_stack : ℕ → Process a → Process a
  dealloc_stack stack p = record p { heap = a.free stack p.heap }

-- The stack frame that Prepare() builds, and the field `stackTop` that it sets.
unfoldable pub build_frame : Symbols → Amd64 → (info : ℕ) → Memory → Memory
build_frame f wrap info m =
    let frame : Cursor = record {
      at = frame_start word64 wrap.stack k_num_saved_registers;
      mem = m;
    } in
    let stack = push_word word64 f.entry_returned_stub frame in
    let stack = push_word word64 info stack in
    let stack = push_word word64 f.dereference_call_info stack in
    let stack = push_word word64 f.jump_to_entry stack in
    let stack = push_zeros word64 k_num_saved_registers stack in
    write stack.mem (wrap.this + cothread_off_context_top) stack.at

module _ {E : Type 0} (a : Allocator E) (f : Symbols) where
  unfoldable pub prepare : Amd64 → E → Process a → Outcome (Process a)
  unfolding build_frame
  prepare wrap entry p =
      let (heap, info) = a.new_info entry p.heap in
      if info == 0
      then throws failed_to_allocate_call_info
      else ok (record { mem = build_frame f wrap info p.mem; heap = heap })

-- The registers that the assembly code names.
pub data Reg : Type 0 where
  rax rbx rdi rsi rbp r12 r13 r14 r15 : Reg

unfoldable pub Reg-discrete : Discrete Reg
Reg-discrete = hlevel

-- The registers that Switch saves, in the order of its pushes.
abbrev pub saved : List Reg
saved = rbp ∷ rbx ∷ r12 ∷ r13 ∷ r14 ∷ r15 ∷ []

unfoldable pub switch_code : List (Instr Reg)
switch_code =
    push rbp
    ∷ push rbx
    ∷ push r12
    ∷ push r13
    ∷ push r14
    ∷ push r15
    ∷ store_sp rdi cothread_off_context_top
    ∷ load_sp rsi cothread_off_context_top
    ∷ pop r15
    ∷ pop r14
    ∷ pop r13
    ∷ pop r12
    ∷ pop rbx
    ∷ pop rbp
    ∷ ret
    ∷ []

unfoldable pub jump_to_entry_code : List (Instr Reg)
jump_to_entry_code = pop rax ∷ pop rdi ∷ jmp rax ∷ []

-- `next` is the address behind the call, where nothing follows.
unfoldable pub entry_returned_stub_code : (cothread_returned next : ℕ) → List (Instr Reg)
entry_returned_stub_code cothread_returned next =
    sub_sp 8 ∷ push rbp ∷ move_sp rbp ∷ call cothread_returned next ∷ []

-- switchTo(): the call of Switch, which is at the address `entry`, with `next` behind the call.
unfoldable pub switch_to : (entry next this other : ℕ) → State Reg → State Reg
switch_to = call_switch Reg-discrete word64 rdi rsi switch_code
