-- ===== src/Amd64/Object.antt =====
-- src/arch/amd64/Common.h: the constants and the fields of class Amd64, and the methods that it
-- declares and that each ABI defines.
use libcommunism.Base.{ℕ, Bool, Outcome}
use libcommunism.Span.{Span}
use libcommunism.Heap.{Allocator, Process}

abbrev pub k_main_stack_size : ℕ
k_main_stack_size = 64

abbrev pub k_stack_alignment : ℕ
k_stack_alignment = 64

abbrev pub k_default_stack_size : ℕ
k_default_stack_size = 0x80000

-- The object at address `this`. Its field `stackTop` is the word of memory at
-- `this + cothread_off_context_top`, where the assembly code reads and writes it.
pub record Amd64 : Type 0 where
  pub this : ℕ
  pub stack : Span
  pub owns_stack : Bool

-- #define COTHREAD_OFF_CONTEXT_TOP (0x20)
abbrev pub cothread_off_context_top : ℕ
cothread_off_context_top = 0x20

-- The addresses of the functions that a first stack frame names.
pub record Symbols : Type 0 where
  pub entry_returned_stub : ℕ
  pub dereference_call_info : ℕ
  pub jump_to_entry : ℕ

-- What an ABI defines, and the common methods call.
pub record Abi {E : Type 0} (a : Allocator E) : Type 0 where
  pub validate_stack_size : ℕ → Outcome (Unit {0})
  pub alloc_stack : ℕ → Process a → Outcome (ℕ × Process a)
  pub dealloc_stack : ℕ → Process a → Process a
  pub prepare : Amd64 → E → Process a → Outcome (Process a)
