-- ===== src/X86.antt =====
-- src/arch/x86: the class x86, for 32 bit machines and the fastcall convention. Common.h, Common.cpp
-- and Fastcall.S; Fastcall.asm is in `Masm`.
pub mod Masm
pub mod Life
pub mod Start
pub mod Entry
pub mod Returned
pub mod Threads
pub mod Cothreads
use libcommunism.Base.{
  ℕ, ◌+◌, ◌*◌, ◌/◌, ◌%◌, Bool, true, false, Outcome, ok, throws, ◌>>=◌, ◌>>◌, size_may_not_be_nil,
  stack_is_misaligned, posix_memalign_failed, failed_to_allocate_stack,
  failed_to_allocate_call_info, List, [], ◌∷◌, arith, ◌==◌, not, if◌then◌else◌,
}
use libcommunism.Memory.{Memory, write}
use libcommunism.Span.{Span, clear_low}
use libcommunism.Impl.{word32}
use libcommunism.Heap.{Allocator, Process}
use libcommunism.Machine.{State, Instr, push, pop, store_sp, load_sp, ret, jmp}
use libcommunism.Machine.Switch.{call_switch}
use libcommunism.Machine.Cursor.{Cursor, push_word}
use libcommunism.Machine.Frame.{frame_start, push_zeros}

abbrev pub k_num_saved_registers : ℕ
k_num_saved_registers = 4

abbrev pub k_main_stack_size : ℕ
k_main_stack_size = 64

abbrev pub k_stack_alignment : ℕ
k_stack_alignment = 16

abbrev pub k_default_stack_size : ℕ
k_default_stack_size = 0x40000

-- The object at `this`; its field `stackTop` is the word at `this + cothread_off_context_top`.
pub record X86 : Type 0 where
  pub this : ℕ
  pub stack : Span
  pub owns_stack : Bool

abbrev pub cothread_off_context_top : ℕ
cothread_off_context_top = 0x10

-- Whether `_WIN32` is defined.
pub data Platform : Type 0 where
  posix : Platform
  windows : Platform

-- The addresses of the functions that a first stack frame names.
pub record Symbols : Type 0 where
  pub dereference_call_info : ℕ
  pub jump_to_entry : ℕ

unfoldable pub validate_stack_size : ℕ → Outcome (Unit {0})
validate_stack_size size =
    if size == 0
    then throws size_may_not_be_nil
    else (if not (size % k_stack_alignment == 0) then throws stack_is_misaligned else ok tt)

unfoldable pub alloc_size : ℕ → ℕ
alloc_size stack_size =
    let rounded = clear_low stack_size 4 in if rounded == 0 then k_default_stack_size else rounded

-- The stack frame that Prepare() builds, and the field `stackTop` that it sets.
unfoldable pub build_frame : Symbols → X86 → (info : ℕ) → Memory → Memory
build_frame f wrap info m =
    let frame : Cursor = record {
      at = frame_start word32 wrap.stack k_num_saved_registers;
      mem = m;
    } in
    let stack = push_word word32 0 frame in
    let stack = push_word word32 info stack in
    let stack = push_word word32 f.dereference_call_info stack in
    let stack = push_word word32 f.jump_to_entry stack in
    let stack = push_zeros word32 k_num_saved_registers stack in
    write stack.mem (wrap.this + cothread_off_context_top) stack.at

module _ {E : Type 0} (a : Allocator E) where
  -- The two ways of AllocStack() to memory, before the test for nullptr.
  unfoldable pub stack_memory : Platform → ℕ → a.Heap → Outcome (a.Heap × ℕ)
  stack_memory posix bytes h =
      let (heap, err, buf) = a.posix_memalign k_stack_alignment bytes h in
      if not (err == 0) then throws posix_memalign_failed else ok (heap, buf)
  stack_memory windows bytes h = ok (a.aligned_malloc bytes k_stack_alignment h)

  unfoldable pub alloc_stack : Platform → ℕ → Process a → Outcome (ℕ × Process a)
  unfolding stack_memory
  alloc_stack platform bytes p = do
    (heap, buf) ← stack_memory platform bytes p.heap
    if buf == 0 then throws failed_to_allocate_stack else ok (buf, record p { heap = heap })

  unfoldable pub dealloc_stack : Platform → ℕ → Process a → Process a
  dealloc_stack posix stack p = record p { heap = a.free stack p.heap }
  dealloc_stack windows stack p = record p { heap = a.aligned_free stack p.heap }

  unfoldable pub prepare : Symbols → X86 → E → Process a → Outcome (Process a)
  unfolding build_frame
  prepare f wrap entry p =
      let (heap, info) = a.new_info entry p.heap in
      if info == 0
      then throws failed_to_allocate_call_info
      else ok (record { mem = build_frame f wrap info p.mem; heap = heap })

  unfoldable pub construct_sized :
      Platform → Symbols → (this : ℕ) → E → (stack_size : ℕ) → Process a → Outcome (X86 × Process a)
  construct_sized platform f this entry stack_size p = do
    let size = alloc_size stack_size
    (buf, q) ← alloc_stack platform size p
    let t : X86 = record {
      this = this;
      stack = record { addr = buf; size = size / word32.bytes };
      owns_stack = true;
    }
    r ← prepare f t entry q
    ok (t, r)

  unfoldable pub construct_span :
      Symbols → (this : ℕ) → E → Span → Process a → Outcome (X86 × Process a)
  construct_span f this entry stack p = do
    validate_stack_size (stack.size * word32.bytes % word32.modulus)
    let t : X86 = record { this = this; stack = stack; owns_stack = false }
    q ← prepare f t entry p
    ok (t, q)

  unfoldable pub destroy : Platform → X86 → Process a → Process a
  destroy platform t p = if t.owns_stack then dealloc_stack platform t.stack.addr p else p

  unfoldable pub alloc_kernel_thread_wrapper : (this main_stack : ℕ) → Process a → X86 × Process a
  alloc_kernel_thread_wrapper this main_stack p = (
    record {
      this = this;
      stack = record { addr = main_stack; size = k_main_stack_size };
      owns_stack = false;
    },
    record p { mem = write p.mem (this + cothread_off_context_top) 0 },
  )

pub data Reg : Type 0 where
  eax ebx ecx edx esi edi ebp : Reg

unfoldable pub Reg-discrete : Discrete Reg
Reg-discrete = hlevel

abbrev pub saved : List Reg
saved = ebx ∷ esi ∷ edi ∷ ebp ∷ []

unfoldable pub switch_code : List (Instr Reg)
switch_code =
    push ebx
    ∷ push esi
    ∷ push edi
    ∷ push ebp
    ∷ store_sp ecx cothread_off_context_top
    ∷ load_sp edx cothread_off_context_top
    ∷ pop ebp
    ∷ pop edi
    ∷ pop esi
    ∷ pop ebx
    ∷ ret
    ∷ []

unfoldable pub jump_to_entry_code : List (Instr Reg)
jump_to_entry_code = pop eax ∷ pop ecx ∷ jmp eax ∷ []

-- switchTo(): the call of Switch, which is at the address `entry`, with `next` behind the call.
unfoldable pub switch_to : (entry next this other : ℕ) → State Reg → State Reg
switch_to = call_switch Reg-discrete word32 ecx edx switch_code
