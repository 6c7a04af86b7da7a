-- ===== src/Amd64/Common.antt =====
-- src/arch/amd64/Common.cpp: construction and destruction of an Amd64 object, over the methods
-- that the ABI in use defines. `this` is the address that the object is constructed at.
pub mod Sizes
use libcommunism.Base.{
  ℕ, ◌+◌, ◌*◌, ◌/◌, ◌%◌, Bool, true, false, Outcome, ok, ◌>>=◌, ◌>>◌, arith, ◌==◌, if◌then◌else◌,
}
use libcommunism.Memory.{write}
use libcommunism.Span.{Span, clear_low}
use libcommunism.Impl.{word64}
use libcommunism.Heap.{Allocator, Process}
use libcommunism.Amd64.Object.{
  Amd64, Abi, k_main_stack_size, k_default_stack_size, cothread_off_context_top,
}

-- The size that is allocated: `stackSize & ~(kStackAlignment - 1)`, or the default in place of 0.
unfoldable pub alloc_size : ℕ → ℕ
alloc_size stack_size =
    let rounded = clear_low stack_size 6 in if rounded == 0 then k_default_stack_size else rounded

module _ {E : Type 0} (a : Allocator E) (abi : Abi a) where
  unfoldable pub construct_sized :
      (this : ℕ) → E → (stack_size : ℕ) → Process a → Outcome (Amd64 × Process a)
  construct_sized this entry stack_size p = do
    let size = alloc_size stack_size
    (buf, q) ← abi.alloc_stack size p
    let t : Amd64 = record {
      this = this;
      stack = record { addr = buf; size = size / word64.bytes };
      owns_stack = true;
    }
    r ← abi.prepare t entry q
    ok (t, r)

  unfoldable pub construct_span : (this : ℕ) → E → Span → Process a → Outcome (Amd64 × Process a)
  construct_span this entry stack p = do
    abi.validate_stack_size (stack.size * word64.bytes % word64.modulus)
    let t : Amd64 = record { this = this; stack = stack; owns_stack = false }
    q ← abi.prepare t entry p
    ok (t, q)

  unfoldable pub destroy : Amd64 → Process a → Process a
  destroy t p = if t.owns_stack then abi.dealloc_stack t.stack.addr p else p

  -- new Amd64(Amd64::gMainStack), with the object at `this` and the thread's buffer at `main_stack`
  unfoldable pub alloc_kernel_thread_wrapper : (this main_stack : ℕ) → Process a → Amd64 × Process a
  alloc_kernel_thread_wrapper this main_stack p = (
    record {
      this = this;
      stack = record { addr = main_stack; size = k_main_stack_size };
      owns_stack = false;
    },
    record p { mem = write p.mem (this + cothread_off_context_top) 0 },
  )
