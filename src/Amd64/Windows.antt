-- ===== src/Amd64/Windows.antt =====
-- src/arch/amd64/Windows.cpp and src/arch/amd64/Windows.asm: the Windows ABI.
pub mod Life
pub mod Start
pub mod Entry
pub mod Threads
pub mod Cothreads
use libcommunism.Base.{
  ℕ, ◌+◌, ◌-◌, ◌*◌, ◌%◌, ◌≡◌, refl, Outcome, ok, throws, size_may_not_be_nil, stack_is_misaligned,
  failed_to_allocate_stack, failed_to_allocate_call_info, List, [], ◌∷◌, ◌++◌, arith, ◌==◌, not,
  if◌then◌else◌,
}
use libcommunism.Memory.{Memory, write}
use libcommunism.Span.{Span}
use libcommunism.Impl.{word64}
use libcommunism.Heap.{Allocator, Process}
use libcommunism.Machine.{
  State, Instr, push, pop, store_sp, load_sp, store_below, load_below, add_sp, sub_sp, move_sp, ret,
  jmp, call,
}
use libcommunism.Machine.Switch.{call_switch}
use libcommunism.Machine.Cursor.{Cursor, push_word}
use libcommunism.Machine.Frame.{frame_start, push_zeros}
use libcommunism.Amd64.Object.{Amd64, Symbols, k_stack_alignment, cothread_off_context_top}

abbrev pub k_num_saved_registers : ℕ
k_num_saved_registers = 8 + 10 * 2

unfoldable pub validate_stack_size : ℕ → Outcome (Unit {0})
validate_stack_size size =
    if size == 0
    then throws size_may_not_be_nil
    else (if not (size % k_stack_alignment == 0) then throws stack_is_misaligned else ok tt)

module _ {E : Type 0} (a : Allocator E) where
  unfoldable pub alloc_stack : ℕ → Process a → Outcome (ℕ × Process a)
  alloc_stack bytes p =
      let (heap, buf) = a.aligned_malloc bytes k_stack_alignment p.heap in
      if buf == 0 then throws failed_to_allocate_stack else ok (buf, record p { heap = heap })

  unfoldable pub dealloc_stack : ℕ → Process a → Process a
  dealloc_stack stack p = record p { heap = a.aligned_free stack p.heap }

-- The stack frame that Prepare() builds, and the field `stackTop` that it sets.
unfoldable pub build_frame : Symbols → Amd64 → (info : ℕ) → Memory → Memory
build_frame f wrap info m =
    let frame : Cursor = record {
      at = frame_start word64 wrap.stack k_num_saved_registers;
      mem = m;
    } in
    let stack = push_word word64 f.entry_returned_stub frame in
    let stack = push_word word64 info stack in
    let stack = push_word word64 f.dereference_call_info stack in
    let stack = push_word word64 f.jump_to_entry stack in
    let stack = push_zeros word64 k_num_saved_registers stack in
    write stack.mem (wrap.this + cothread_off_context_top) stack.at

module _ {E : Type 0} (a : Allocator E) (f : Symbols) where
  unfoldable pub prepare : Amd64 → E → Process a → Outcome (Process a)
  unfolding build_frame
  prepare wrap entry p =
      let (heap, info) = a.new_info entry p.heap in
      if info == 0
      then throws failed_to_allocate_call_info
      else ok (record { mem = build_frame f wrap info p.mem; heap = heap })

-- The registers that the assembly code names. An SSE register has 128 bits, two words.
pub data Xmm : Type 0 where
  xmm6 xmm7 xmm8 xmm9 xmm10 xmm11 xmm12 xmm13 xmm14 xmm15 : Xmm

pub data Reg : Type 0 where
  rax rbx rcx rdx rdi rsi rbp r12 r13 r14 r15 : Reg
  low high : Xmm → Reg

unfoldable pub Reg-discrete : Discrete Reg
Reg-discrete = hlevel

-- movdqu [rsp-off], x and movdqu x, [rsp-off]: the low word is at the lower address.
abbrev pub movdqu_store : ℕ → Xmm → List (Instr Reg)
movdqu_store off x = store_below (off - 8) (high x) ∷ store_below off (low x) ∷ []

abbrev pub movdqu_load : Xmm → ℕ → List (Instr Reg)
movdqu_load x off = load_below off (low x) ∷ load_below (off - 8) (high x) ∷ []

-- The registers that Switch saves, in the order of their addresses, from the highest.
abbrev pub saved_integers : List Reg
saved_integers = rbp ∷ rbx ∷ rdi ∷ rsi ∷ r12 ∷ r13 ∷ r14 ∷ r15 ∷ []

abbrev pub halves : List Xmm → List Reg
halves [] = []
halves (x ∷ xs) = high x ∷ low x ∷ halves xs

abbrev pub saved_sse : List Reg
saved_sse = halves (xmm6 ∷ xmm7 ∷ xmm8 ∷ xmm9 ∷ xmm10 ∷ xmm11 ∷ xmm12 ∷ xmm13 ∷ xmm14 ∷ xmm15 ∷ [])

abbrev pub saved : List Reg
saved = saved_integers ++ saved_sse

unfoldable pub switch_code : List (Instr Reg)
switch_code =
    (push rbp ∷ push rbx ∷ push rdi ∷ push rsi ∷ push r12 ∷ push r13 ∷ push r14 ∷ push r15 ∷ [])
    ++ movdqu_store 0x10 xmm6
    ++ movdqu_store 0x20 xmm7
    ++ movdqu_store 0x30 xmm8
    ++ movdqu_store 0x40 xmm9
    ++ movdqu_store 0x50 xmm10
    ++ movdqu_store 0x60 xmm11
    ++ movdqu_store 0x70 xmm12
    ++ movdqu_store 0x80 xmm13
    ++ movdqu_store 0x90 xmm14
    ++ movdqu_store 0xA0 xmm15
    ++ (sub_sp 0xA0
        ∷ store_sp rcx cothread_off_context_top
        ∷ load_sp rdx cothread_off_context_top
        ∷ add_sp 0xA0
        ∷ [])
    ++ movdqu_load xmm15 0xA0
    ++ movdqu_load xmm14 0x90
    ++ movdqu_load xmm13 0x80
    ++ movdqu_load xmm12 0x70
    ++ movdqu_load xmm11 0x60
    ++ movdqu_load xmm10 0x50
    ++ movdqu_load xmm9 0x40
    ++ movdqu_load xmm8 0x30
    ++ movdqu_load xmm7 0x20
    ++ movdqu_load xmm6 0x10
    ++ (pop r15 ∷ pop r14 ∷ pop r13 ∷ pop r12 ∷ pop rsi ∷ pop rdi ∷ pop rbx ∷ pop rbp ∷ ret ∷ [])

unfoldable pub jump_to_entry_code : List (Instr Reg)
jump_to_entry_code = pop rax ∷ pop rcx ∷ jmp rax ∷ []

-- `next` is the address behind the call, where nothing follows.
unfoldable pub entry_returned_stub_code : (cothread_returned next : ℕ) → List (Instr Reg)
entry_returned_stub_code cothread_returned next =
    sub_sp 8 ∷ push rbp ∷ move_sp rbp ∷ sub_sp 0x20 ∷ call cothread_returned next ∷ []

-- switchTo(): the call of Switch, which is at the address `entry`, with `next` behind the call.
unfoldable pub switch_to : (entry next this other : ℕ) → State Reg → State Reg
switch_to = call_switch Reg-discrete word64 rcx rdx switch_code
