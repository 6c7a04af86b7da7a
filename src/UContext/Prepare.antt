-- ===== src/UContext/Prepare.antt =====
-- Prepare() of src/arch/ucontext/UContext.cpp with what it writes to memory. getcontext() and
-- makecontext() of the C library are parameters: they write to the ucontext_t, and the first has a
-- result.
use libcommunism.Base.{
  ℕ, ◌+◌, ◌-◌, ◌*◌, ◌^◌, ◌≤◌, ◌<◌, ◌≡◌, ◌≢◌, refl, Outcome, ok, leb, arith, if◌then◌else◌,
}
use libcommunism.Memory.{Memory, write}
use libcommunism.UContext.{UContext, Made, Contexts, prepare}
use libcommunism.UContext.Stacks.{round_up_bounds, prepare_wraps}

pub record ContextCalls : Type 0 where
  pub getcontext : ℕ → Memory → Memory × ℕ
  pub makecontext : ℕ → Made → Memory → Memory

-- memset(p, 0, n), for a whole number of words.
unfoldable pub memset_zero : (p n : ℕ) → Memory → Memory
memset_zero p n m q = if leb p q then (if leb (p + n) q then m q else 0) else m q

memset_zero-write :
    (p n q v : ℕ) (m : Memory)
    → p ≤ q
    → q < p + n
    → memset_zero p n (write m q v) ≡ memset_zero p n m
unfolding memset_zero write
memset_zero-write p n q v m low high = λ i x. h x i
  where
    h : (x : ℕ) → memset_zero p n (write m q v) x ≡ memset_zero p n m x
    h x = ground arith

module _ {E : Type 0} (lib : ContextCalls) (size : ℕ) where
  -- The memory of the program behind makecontext(), where Prepare() comes to it.
  finish : ℕ → Memory → Outcome (Made × Contexts E) → Memory × Outcome (Made × Contexts E)
  finish p m (ok (made, d)) = (lib.makecontext p made m, ok (made, d))
  finish p m r = (m, r)

  -- Prepare(): the memory that it leaves, and how it ends. The Context that it makes is the entry of
  -- gContextInfo.
  unfoldable pub prepare_in_memory :
      UContext → E → Memory → Contexts E → Memory × Outcome (Made × Contexts E)
  unfolding memset_zero finish
  prepare_in_memory thread entry m c =
      let p = thread.stack.addr in
      let (n, result) = lib.getcontext p (memset_zero p size m) in
      finish p n (prepare size result thread entry c)

  -- Where the memory that is given is smaller than the ucontext_t, which lies within the address space
  -- and takes less than half of it, the counter does not overflow, and getcontext() succeeds:
  -- Prepare() does not refuse, the size of the stack that it sets wraps around to more than half the
  -- address space, and a word of the ucontext_t that lies behind the memory is lost, since whatever
  -- it was, Prepare() leaves the same.
  pub prepare_overruns :
      (thread : UContext) (entry : E) (m : Memory) (c : Contexts E) (q v : ℕ)
      → c.next_id ≢ 2 ^ 31 - 1
      → thread.stack.size * 8 < size
      → size + 64 ≤ 2 ^ 63
      → thread.stack.addr + size < 2 ^ 64
      → thread.stack.addr + thread.stack.size * 8 ≤ q
      → q + 8 ≤ thread.stack.addr + size
      → (lib.getcontext thread.stack.addr (memset_zero thread.stack.addr size m)).1 ≡ 0
      → (made : Made) × (d : Contexts E) × ((prepare_in_memory thread entry m c).1 ≡ ok (made, d))
        × (2 ^ 63 < made.ss_size)
        × (prepare_in_memory thread entry (write m q v) c ≡ prepare_in_memory thread entry m c)
  unfolding prepare_in_memory finish
  prepare_overruns thread entry m c q v next small half fits behind within fine =
      let r = round_up_bounds size (omega arith) in
      let (made, d, run, wraps) =
        prepare_wraps size thread entry c next (omega (arith, r)) (omega (arith, r)) in
      (
        made,
        d,
        rw (fine, run) refl,
        wraps,
        rw (memset_zero-write thread.stack.addr size q v m (omega arith) (omega arith)) refl,
      )
