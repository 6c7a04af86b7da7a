-- ===== src/UContext/Stacks.antt =====
-- The stack that Prepare() of src/arch/ucontext/UContext.cpp hands to makecontext().
use libcommunism.Base.{
  ℕ, ◌+◌, ◌-◌, ◌*◌, ◌%◌, ◌^◌, ◌≤◌, ◌<◌, ◌≡◌, ◌≢◌, some, ok, arith, ◌==◌, if◌then◌else◌,
}
use libcommunism.Span.{clear_low}
use libcommunism.Impl.{word64}
use libcommunism.Machine.{add_word, sub_word}
use libcommunism.UContext.{
  UContext, Made, Contexts, round_up, alloc_size, prepare, register, k_default_stack_size,
}
use libcommunism.UContext.Ids.{register_total}

pub round_up_bounds :
    (n : ℕ) → n + 64 ≤ 2 ^ 64 → (round_up n % 64 ≡ 0) × (n ≤ round_up n) × (round_up n < n + 64)
unfolding round_up
round_up_bounds n room = ground arith

-- Where the sizes of the request (or the default) and of the ucontext_t do not overflow, the allocated
-- size is a multiple of 64 and leaves the request rounded down, or the default, above the
-- ucontext_t rounded up.
pub alloc_size-le :
    (size n : ℕ)
    → size + n + k_default_stack_size + 64 < 2 ^ 64
    → (alloc_size size n % 64 ≡ 0)
      × (round_up size + (if clear_low n 6 == 0 then k_default_stack_size else clear_low n 6)
          ≤ alloc_size size n)
unfolding alloc_size clear_low
alloc_size-le size n room = ground arith

module _ {E : Type 0} (size : ℕ) (thread : UContext) (entry : E) (c : Contexts E) where
  -- Where getcontext() succeeds, the counter does not overflow, and the memory lies within the
  -- address space and has room for the ucontext_t rounded up, Prepare() returns: its stack reaches
  -- from above the ucontext_t, at its size rounded up, to the end of the memory, and the entry point is registered under
  -- the id that makecontext() gets.
  pub prepare_within :
      size + 64 ≤ 2 ^ 64
      → c.next_id ≢ 2 ^ 31 - 1
      → round_up size ≤ thread.stack.size * 8
      → thread.stack.addr + thread.stack.size * 8 < 2 ^ 64
      → (made : Made) × (d : Contexts E) × (prepare size 0 thread entry c ≡ ok (made, d))
        × (register entry c ≡ some (made.id, d))
        × (thread.stack.addr + size ≤ made.ss_sp)
        × (made.ss_sp ≡ thread.stack.addr + round_up size)
        × (made.ss_sp + made.ss_size ≡ thread.stack.addr + thread.stack.size * 8)
  unfolding prepare add_word sub_word
  prepare_within whole next enough fits =
      let (id, d, run) = register_total entry c next in
      (
        record {
          ss_sp = add_word word64 thread.stack.addr (round_up size);
          ss_size =
              sub_word word64 (thread.stack.size * word64.bytes % word64.modulus) (round_up size);
          id = id;
        },
        d,
        rw (run, prepare),
        run,
        omega (arith, round_up_bounds size whole),
        omega arith,
        omega arith,
      )

  -- Memory that is too small for the ucontext_t, which takes less than half the address space.
  pub prepare_wraps :
      c.next_id ≢ 2 ^ 31 - 1
      → thread.stack.size * 8 < round_up size
      → round_up size < 2 ^ 63
      → (made : Made) × (d : Contexts E) × (prepare size 0 thread entry c ≡ ok (made, d))
        × (2 ^ 63 < made.ss_size)
  unfolding prepare add_word sub_word
  prepare_wraps next small room =
      let (id, d, run) = register_total entry c next in
      (
        record {
          ss_sp = add_word word64 thread.stack.addr (round_up size);
          ss_size =
              sub_word word64 (thread.stack.size * word64.bytes % word64.modulus) (round_up size);
          id = id;
        },
        d,
        rw (run, prepare),
        omega arith,
      )
