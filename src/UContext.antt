-- ===== src/UContext.antt =====
-- src/arch/ucontext: the class UContext, over getcontext(), makecontext() and swapcontext() of the
-- C library. `ucontext_size` is sizeof(ucontext_t), which the C library fixes.
pub mod Stacks
pub mod Prepare
pub mod Ids
pub mod Life
pub mod Returned
pub mod Switch
pub mod Cothreads
pub mod Interleaved
use libcommunism.Base.{
  ℕ, zero, suc, ◌+◌, ◌-◌, ◌*◌, ◌/◌, ◌%◌, ◌^◌, Bool, true, false, Option, none, some, Outcome, ok,
  throws, undefined, ◌>>=◌, ◌>>◌, getcontext_failed, failed_to_allocate_stack,
  posix_memalign_failed, arith, ◌==◌, not, if◌then◌else◌,
}
use libcommunism.Span.{Span, clear_low}
use libcommunism.Impl.{word64}
use libcommunism.Heap.{Allocator}
use libcommunism.Machine.{add_word, sub_word}

abbrev pub k_stack_alignment : ℕ
k_stack_alignment = 64

abbrev pub k_main_stack_size : ℕ
k_main_stack_size = 128

-- sizeof(uintptr_t) * 0x10000
abbrev pub k_default_stack_size : ℕ
k_default_stack_size = 8 * 0x10000

pub record UContext : Type 0 where
  pub stack : Span
  pub owns_stack : Bool

-- if(n % kStackAlignment) { n += kStackAlignment - (n % kStackAlignment); }
unfoldable pub round_up : ℕ → ℕ
round_up n =
    if n % k_stack_alignment == 0
    then n
    else (n + (k_stack_alignment - n % k_stack_alignment)) % word64.modulus

unfoldable pub alloc_size : (ucontext_size stack_size : ℕ) → ℕ
unfolding round_up
alloc_size ucontext_size stack_size =
    let rounded = clear_low stack_size 6 in
    round_up
      (((if rounded == 0 then k_default_stack_size else rounded) + ucontext_size) % word64.modulus)

-- The fields `uc_stack` and the argument that Prepare() gives to makecontext().
pub record Made : Type 0 where
  pub ss_sp : ℕ
  pub ss_size : ℕ
  pub id : ℕ

-- gContextNextId and gContextInfo. An `int` is its bit pattern, below 2 ^ 32; `E` is the type of
-- the entry points.
pub record Contexts (E : Type 0) : Type 0 where
  pub next_id : ℕ
  pub info : ℕ → Option E

-- do { id = ++gContextNextId; } while(!id); `none` means that the increment overflows, which C++
-- leaves undefined, or that the fuel ran out.
unfoldable pub next_id_loop : (fuel counter : ℕ) → Option ℕ
next_id_loop zero counter = none
next_id_loop (suc fuel) counter =
    let id = (counter + 1) % 2 ^ 32 in
    let rest = next_id_loop fuel id in
    if counter == 2 ^ 31 - 1 then none else (if id == 0 then rest else some id)

module _ {E : Type 0} where
  -- std::unordered_map::emplace() leaves an entry that is there.
  unfoldable pub emplace : ℕ → E → (ℕ → Option E) → ℕ → Option E
  emplace id e m q = if id == q then elim (m q) [ none ↦ some e | some old ↦ some old ] else m q

  -- The critical section of Prepare(): a new id, and the entry point under it.
  unfoldable pub register : E → Contexts E → Option (ℕ × Contexts E)
  unfolding next_id_loop emplace
  register e c = elim (next_id_loop 2 c.next_id) [
    | none ↦ none
    | some id ↦ some (id, record { next_id = id; info = emplace id e c.info })
  ]

  -- The critical section of EntryStub(): the entry point under an id, which is erased. `at` throws
  -- where there is none.
  unfoldable pub take : ℕ → Contexts E → Option (E × Contexts E)
  take id c = elim (c.info id) [
    | none ↦ none
    | some e ↦ some (e, record c { info = λ q. if id == q then none else c.info q })
  ]

  -- Prepare() behind getcontext(), with its result; what it writes to memory is in `Prepare`.
  unfoldable pub prepare :
      (ucontext_size getcontext_result : ℕ)
      → UContext
      → E
      → Contexts E
      → Outcome (Made × Contexts E)
  unfolding register round_up
  prepare ucontext_size getcontext_result thread entry c =
      if not (getcontext_result == 0)
      then throws getcontext_failed
      else (let offset = round_up ucontext_size in
          elim (register entry c) [
            | none ↦ undefined
            | some (id, d) ↦ ok (
              record {
                ss_sp = add_word word64 thread.stack.addr offset;
                ss_size =
                    sub_word word64 (thread.stack.size * word64.bytes % word64.modulus) offset;
                id = id;
              },
              d,
            )
          ])

-- The allocator's blocks and the map from ids to entry points.
pub record Process {E : Type 0} (a : Allocator E) : Type 0 where
  pub heap : a.Heap
  pub contexts : Contexts E

-- UContext::UContext() and ~UContext(), with posix_memalign() as on all but Windows.
module _ {E : Type 0} (a : Allocator E) (ucontext_size getcontext_result : ℕ) where
  unfoldable pub construct_sized :
      E → (stack_size : ℕ) → Process a → Outcome (UContext × Made × Process a)
  construct_sized entry stack_size p =
      let size = alloc_size ucontext_size stack_size in
      let (heap, err, buf) = a.posix_memalign k_stack_alignment size p.heap in
      if not (err == 0)
      then throws posix_memalign_failed
      else (if buf == 0
          then throws failed_to_allocate_stack
          else (let t : UContext = record {
            stack = record { addr = buf; size = size / word64.bytes };
            owns_stack = true;
          } in
              prepare ucontext_size getcontext_result t entry p.contexts >>= λ (made, d).
              ok (t, made, record { heap = heap; contexts = d })))

  unfoldable pub construct_span : E → Span → Process a → Outcome (UContext × Made × Process a)
  construct_span entry stack p =
      let t : UContext = record { stack = stack; owns_stack = false } in
      prepare ucontext_size getcontext_result t entry p.contexts >>= λ (made, d).
      ok (t, made, record p { contexts = d })

module _ {E : Type 0} (a : Allocator E) where
  unfoldable pub destroy : UContext → Process a → Process a
  destroy t p = if t.owns_stack then record p { heap = a.free t.stack.addr p.heap } else p

-- new UContext(UContext::gMainStack), with the thread's buffer at `main_stack`.
unfoldable pub alloc_kernel_thread_wrapper : (main_stack : ℕ) → UContext
alloc_kernel_thread_wrapper main_stack = record {
  stack = record { addr = main_stack; size = k_main_stack_size };
  owns_stack = false;
}
