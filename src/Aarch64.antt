-- ===== src/Aarch64.antt =====
-- src/arch/aarch64: the class Aarch64. Common.h, Common.cpp and AAPCS.cpp; the assembly code of
-- AAPCS.S is in `Machine`.
pub mod Machine
pub mod Context
pub mod Rows
pub mod Switch
pub mod Entry
pub mod Threads
pub mod Cothreads
pub mod Prepare
pub mod Returned
pub mod Life
pub mod Start
use libcommunism.Base.{
  ℕ, ◌+◌, ◌*◌, ◌/◌, ◌%◌, Bool, true, false, Outcome, ok, throws, ◌>>=◌, ◌>>◌, size_may_not_be_nil,
  stack_is_misaligned, posix_memalign_failed, failed_to_allocate_call_info, arith, ◌==◌, not,
  if◌then◌else◌,
}
use libcommunism.Memory.{Memory, write}
use libcommunism.Span.{Span, clear_low}
use libcommunism.Impl.{word64}
use package.libcommunism.Machine.{add_word}
use libcommunism.Heap.{Allocator, Process}

abbrev pub k_context_save_area_size : ℕ
k_context_save_area_size = 0x100

abbrev pub k_main_stack_size : ℕ
k_main_stack_size = k_context_save_area_size * 2 / 8

abbrev pub k_stack_alignment : ℕ
k_stack_alignment = 64

abbrev pub k_default_stack_size : ℕ
k_default_stack_size = 0x80000

-- The object at `this`; its field `stackTop` is the word at `this + cothread_off_context_top`.
pub record Aarch64 : Type 0 where
  pub this : ℕ
  pub stack : Span
  pub owns_stack : Bool

abbrev pub cothread_off_context_top : ℕ
cothread_off_context_top = 0x20

unfoldable pub validate_stack_size : ℕ → Outcome (Unit {0})
validate_stack_size size =
    if size == 0
    then throws size_may_not_be_nil
    else (if not (size % k_stack_alignment == 0) then throws stack_is_misaligned else ok tt)

unfoldable pub alloc_size : ℕ → ℕ
alloc_size stack_size =
    let rounded = clear_low stack_size 6 in
    ((if rounded == 0 then k_default_stack_size else rounded) + k_context_save_area_size)
    % word64.modulus

-- The context that Prepare() writes, `entry_stub` the address of Aarch64AapcsEntryStub.
unfoldable pub build_context : (entry_stub : ℕ) → Aarch64 → (info : ℕ) → Memory → Memory
build_context entry_stub thread info m =
    let context = thread.stack.addr in
    let stack_bottom =
      add_word word64 thread.stack.addr (thread.stack.size * word64.bytes % word64.modulus) in
    let m = write m (context + 0 * word64.bytes) stack_bottom in
    let m = write m (context + 1 * word64.bytes) entry_stub in
    let m = write m (context + 2 * word64.bytes) info in
    let m = write m (context + 12 * word64.bytes) stack_bottom in
    write m (thread.this + cothread_off_context_top) context

module _ {E : Type 0} (a : Allocator E) where
  unfoldable pub alloc_stack : ℕ → Process a → Outcome (ℕ × Process a)
  alloc_stack bytes p =
      let (heap, err, buf) = a.posix_memalign k_stack_alignment bytes p.heap in
      if not (err == 0) then throws posix_memalign_failed else ok (buf, record p { heap = heap })

  unfoldable pub dealloc_stack : ℕ → Process a → Process a
  dealloc_stack stack p = record p { heap = a.free stack p.heap }

  unfoldable pub prepare : (entry_stub : ℕ) → Aarch64 → E → Process a → Outcome (Process a)
  unfolding build_context
  prepare entry_stub thread entry p =
      let (heap, info) = a.new_info entry p.heap in
      if info == 0
      then throws failed_to_allocate_call_info
      else ok (record { mem = build_context entry_stub thread info p.mem; heap = heap })

  unfoldable pub construct_sized :
      (entry_stub this : ℕ) → E → (stack_size : ℕ) → Process a → Outcome (Aarch64 × Process a)
  construct_sized entry_stub this entry stack_size p = do
    let size = alloc_size stack_size
    (buf, q) ← alloc_stack size p
    let t : Aarch64 = record {
      this = this;
      stack = record { addr = buf; size = size / word64.bytes };
      owns_stack = true;
    }
    r ← prepare entry_stub t entry q
    ok (t, r)

  unfoldable pub construct_span :
      (entry_stub this : ℕ) → E → Span → Process a → Outcome (Aarch64 × Process a)
  construct_span entry_stub this entry stack p = do
    validate_stack_size (stack.size * word64.bytes % word64.modulus)
    let t : Aarch64 = record { this = this; stack = stack; owns_stack = false }
    q ← prepare entry_stub t entry p
    ok (t, q)

  unfoldable pub destroy : Aarch64 → Process a → Process a
  destroy t p = if t.owns_stack then dealloc_stack t.stack.addr p else p

  -- new Aarch64(Aarch64::gMainStack): the context is saved in the thread's buffer.
  unfoldable pub alloc_kernel_thread_wrapper :
      (this main_stack : ℕ) → Process a → Aarch64 × Process a
  alloc_kernel_thread_wrapper this main_stack p = (
    record {
      this = this;
      stack = record { addr = main_stack; size = k_main_stack_size };
      owns_stack = false;
    },
    record p { mem = write p.mem (this + cothread_off_context_top) main_stack },
  )
