-- ===== src/Aarch64/Prepare.antt =====
-- What Prepare() of src/arch/aarch64/AAPCS.cpp leaves, and for which stacks.
use libcommunism.Base.{ℕ, ◌+◌, ◌-◌, ◌*◌, ◌%◌, ◌^◌, ◌≤◌, ◌<◌, ◌≡◌, ◌≢◌, ◌⊎◌, refl, ◌∙◌, ok, arith}
use libcommunism.Memory.{SameOn, Apart, Memory, write}
use libcommunism.Span.{clear_low}
use package.libcommunism.Machine.{add_word}
use libcommunism.Aarch64.{
  Aarch64, cothread_off_context_top, build_context, validate_stack_size, alloc_size,
  k_context_save_area_size,
}

-- For a request that does not overflow with the 256 bytes of the context, the allocated size is a
-- multiple of 64 with room for the context and, above it, for the request rounded down by less
-- than 64, or for the default where the request is below 64.
pub alloc_size_bounds :
    (n : ℕ)
    → n + k_context_save_area_size < 2 ^ 64
    → (alloc_size n % 64 ≡ 0)
      × (k_context_save_area_size + 64 ≤ alloc_size n)
      × (((n < 64) × (alloc_size n ≡ 0x80000 + k_context_save_area_size))
          ⊎ ((alloc_size n ≤ n + k_context_save_area_size)
              × (n < alloc_size n - k_context_save_area_size + 64)))
unfolding alloc_size clear_low
alloc_size_bounds n room = ground arith

-- The words from which the first Switch() to `thread` restores.
pub record IsReady (entry_stub : ℕ) (thread : Aarch64) (info : ℕ) (m m' : Memory) : Type 0 where
  pub top : m' (thread.this + cothread_off_context_top) ≡ thread.stack.addr
  pub sp : m' thread.stack.addr ≡ thread.stack.addr + thread.stack.size * 8
  pub lr : m' (thread.stack.addr + 8) ≡ entry_stub
  pub x19 : m' (thread.stack.addr + 0x10) ≡ info
  pub x29 : m' (thread.stack.addr + 0x60) ≡ thread.stack.addr + thread.stack.size * 8
  pub elsewhere :
      (q : ℕ)
      → Apart thread.stack.addr (thread.stack.addr + 0x68) q
      → q ≢ thread.this + cothread_off_context_top
      → m' q ≡ m q

-- What Prepare() left is still there where the context and the object's field have kept their words.
pub IsReady-same :
    (entry_stub : ℕ) (thread : Aarch64) (info : ℕ) (m m' m'' : Memory)
    → IsReady entry_stub thread info m m'
    → m'' (thread.this + cothread_off_context_top) ≡ m' (thread.this + cothread_off_context_top)
    → SameOn thread.stack.addr (thread.stack.addr + 0x68) m' m''
    → IsReady entry_stub thread info m'' m''
IsReady-same entry_stub thread info m m' m'' ready cell same = record {
  top = cell ∙ ready.top;
  sp = same thread.stack.addr (omega arith) (omega arith) ∙ ready.sp;
  lr = same (thread.stack.addr + 8) (omega arith) (omega arith) ∙ ready.lr;
  x19 = same (thread.stack.addr + 0x10) (omega arith) (omega arith) ∙ ready.x19;
  x29 = same (thread.stack.addr + 0x60) (omega arith) (omega arith) ∙ ready.x29;
  elsewhere = λ q apart ne. refl;
}

module _ (entry_stub : ℕ) (thread : Aarch64) (info : ℕ) (m : Memory) where
  -- On a stack within the address space, whose first 104 bytes are apart from the object's field
  -- `stackTop`, Prepare() stores the words from which Switch() loads the stack pointer (the end of
  -- the stack), the link register (the entry stub), X19 (the CallInfo) and X29, points `stackTop`
  -- to them, and writes nothing outside those 104 bytes and that field.
  pub build_context-IsReady :
      thread.stack.addr + thread.stack.size * 8 < 2 ^ 64
      → Apart thread.stack.addr (thread.stack.addr + 0x68) (thread.this + cothread_off_context_top)
      → IsReady entry_stub thread info m (build_context entry_stub thread info m)
  unfolding build_context write add_word
  build_context-IsReady fits apart = record {
    top = ground arith;
    sp = ground arith;
    lr = ground arith;
    x19 = ground arith;
    x29 = ground arith;
    elsewhere = λ q out ne. ground arith;
  }

  -- A stack that ValidateStackSize() accepts and that has fewer than 104 bytes has 64, and Prepare()
  -- writes behind its end, within the address space and apart from the field `stackTop`.
  pub build_context-overruns :
      validate_stack_size (thread.stack.size * 8) ≡ ok tt
      → thread.stack.size * 8 < 0x68
      → thread.stack.addr + thread.stack.size * 8 < 2 ^ 64
      → Apart thread.stack.addr (thread.stack.addr + 0x68) (thread.this + cothread_off_context_top)
      → (thread.stack.size * 8 ≡ 64)
        × (thread.stack.addr + thread.stack.size * 8 ≤ thread.stack.addr + 0x60)
        × (build_context entry_stub thread info m (thread.stack.addr + 0x60)
            ≡ thread.stack.addr + thread.stack.size * 8)
  unfolding validate_stack_size
  build_context-overruns valid small fits apart =
      let size : thread.stack.size * 8 ≡ 64 = ground arith in
      (size, omega (arith, size), (build_context-IsReady fits apart).x29)
