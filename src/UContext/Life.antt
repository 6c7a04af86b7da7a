-- ===== src/UContext/Life.antt =====
-- The life of an UContext object: the constructor of src/arch/ucontext/UContext.cpp that allocates its
-- stack, and the destructor.
use libcommunism.Base.{
  ℕ, ◌+◌, ◌-◌, ◌*◌, ◌/◌, ◌%◌, ◌^◌, ◌≤◌, ◌<◌, ◌≡◌, ◌≢◌, refl, ◌∙◌, true, false, some, ok, arith,
  ◌==◌, if◌then◌else◌,
}
use libcommunism.Span.{clear_low}
use libcommunism.Heap.{Allocator, IsAllocator, freed}
use libcommunism.UContext.{
  UContext, Made, Contexts, Process, k_default_stack_size, alloc_size, prepare, register,
  construct_sized, destroy,
}
use libcommunism.UContext.Stacks.{alloc_size-le, prepare_within}

-- What the constructor leaves of a request for `n` bytes: a new aligned block that the object owns,
-- and in it, above the ucontext_t, a stack with room for the request rounded down, or for the
-- default.
pub record IsCreated {E : Type 0} (a : Allocator E) (size : ℕ) (entry : E) (n : ℕ) (p : Process a)
    (t : UContext) (made : Made) (q : Process a) : Type 0 where
  pub owns : t.owns_stack ≡ true
  pub aligned : t.stack.addr % 64 ≡ 0
  pub fresh : a.is_live p.heap t.stack.addr ≡ false
  pub live : (b : ℕ) → a.is_live q.heap b ≡ (if t.stack.addr == b then true else a.is_live p.heap b)
  pub registered : register entry p.contexts ≡ some (made.id, q.contexts)
  pub above : t.stack.addr + size ≤ made.ss_sp
  pub end : made.ss_sp + made.ss_size ≡ t.stack.addr + alloc_size size n
  pub enough : (if clear_low n 6 == 0 then k_default_stack_size else clear_low n 6) ≤ made.ss_size

module _ {E : Type 0} (a : Allocator E) (law : IsAllocator (2 ^ 64) a) (size : ℕ) (entry : E)
    (n : ℕ) (p : Process a) where
  abbrev allocated : a.Heap × ℕ × ℕ
  allocated = a.posix_memalign 64 (alloc_size size n) p.heap

  abbrev thread : UContext
  thread = record {
    stack = record { addr = allocated.2; size = alloc_size size n / 8 };
    owns_stack = true;
  }

  whole :
      size + n + k_default_stack_size + 64 < 2 ^ 64 → alloc_size size n / 8 * 8 ≡ alloc_size size n
  whole room = omega (arith, alloc_size-le size n room)

  construct_sized-ok :
      (made : Made) (d : Contexts E)
      → allocated.1 ≡ 0
      → allocated.2 ≢ 0
      → prepare size 0 thread entry p.contexts ≡ ok (made, d)
      → construct_sized a size 0 entry n p
        ≡ ok (thread, made, record { heap = allocated.0; contexts = d })
  unfolding construct_sized
  construct_sized-ok made d fine ne run =
      let zero : (allocated.1 == 0) ≡ true = ground arith in
      let some_buf : (allocated.2 == 0) ≡ false = ground arith in rw (zero, some_buf, run) refl

  -- Where posix_memalign() and getcontext() succeed, the sizes do not overflow, and the counter of ids
  -- does not, the constructor returns an object that owns a new block, aligned to 64 bytes; no other
  -- block changes, the entry point is registered under the id that makecontext() gets, and the
  -- block holds the ucontext_t and above it, to the end of the block, a stack with room for the
  -- request rounded down, or for the default; the destructor gives the block back, each address
  -- being live then exactly where it was before.
  pub construct_sized-IsCreated_ucontext :
      size + n + k_default_stack_size + 64 < 2 ^ 64
      → p.contexts.next_id ≢ 2 ^ 31 - 1
      → allocated.1 ≡ 0
      → (t : UContext) × (made : Made) × (q : Process a) × (construct_sized a size 0 entry n p
          ≡ ok (t, made, q))
        × IsCreated a size entry n p t made q
        × ((b : ℕ) → a.is_live (destroy a t q).heap b ≡ a.is_live p.heap b)
  unfolding destroy
  construct_sized-IsCreated_ucontext room next fine =
      let got = law.memalign 64 (alloc_size size n) p.heap fine in
      let (made, d, run, registered, above, start, end) =
        prepare_within size thread entry p.contexts (omega (arith, room)) next
          (omega (arith, whole room, alloc_size-le size n room))
          (omega (arith, whole room, got.fits)) in
      (
        thread,
        made,
        record { heap = allocated.0; contexts = d },
        construct_sized-ok made d fine got.not_null run,
        record {
          owns = refl;
          aligned = got.aligned;
          fresh = got.fresh;
          live = got.live;
          registered = registered;
          above = above;
          end = omega (arith, end, whole room);
          enough = omega (arith, start, end, whole room, alloc_size-le size n room);
        },
        λ b.
            law.free_live allocated.2 allocated.0 b
            ∙ freed allocated.2 b (a.is_live allocated.0) (a.is_live p.heap) (got.live b) got.fresh,
      )
