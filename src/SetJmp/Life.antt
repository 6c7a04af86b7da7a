-- ===== src/SetJmp/Life.antt =====
-- The life of a SetJmp object: the constructor of src/arch/setjmp/SetJmp.cpp that allocates its stack,
-- and the destructor.
use libcommunism.Base.{
  Error, ℕ, ◌+◌, ◌/◌, ◌%◌, ◌^◌, ◌≤◌, ◌<◌, ◌≡◌, ◌≢◌, ◌⊎◌, refl, ◌∙◌, true, false, none, some, ok,
  throws, arith, ◌==◌, if◌then◌else◌,
}
use libcommunism.Span.{clear_low}
use libcommunism.Heap.{Allocator, IsAllocator, new_not_zero, freed}
use libcommunism.SetJmp.{
  SetJmp, Process, Signals, Results, k_default_stack_size, round_up, alloc_size, prepare,
  construct_sized, prepare_with_context, destroy,
}
use libcommunism.SetJmp.Prepare.{IsReady, prepare-IsReady, prepare_throws}

-- The allocated size leaves the request rounded down, or the default, above the rounded sigjmp_buf.
pub alloc_size_room :
    (size n : ℕ)
    → size + n + k_default_stack_size + 64 < 2 ^ 64
    → (alloc_size size n % 64 ≡ 0)
      × (round_up size + (if clear_low n 6 == 0 then k_default_stack_size else clear_low n 6)
          ≤ alloc_size size n)
unfolding alloc_size clear_low
alloc_size_room size n room = ground arith

module _ {E : Type 0} (a : Allocator E) (law : IsAllocator (2 ^ 64) a) (size : ℕ) (entry : E)
    (n : ℕ) (p : Process a) where
  abbrev allocated : a.Heap × ℕ × ℕ
  allocated = a.posix_memalign 64 (alloc_size size n) p.heap

  abbrev thread : SetJmp
  thread = record {
    stack = record { addr = allocated.2; size = alloc_size size n / 8 };
    owns_stack = true;
  }

  abbrev succeeding : Results
  succeeding = record { sigaltstack = 0; sigaction = 0; raise = 0 }

  abbrev prepared : Signals E
  prepared = (prepare size succeeding thread entry p.signals).0

  -- The EntryContext that Prepare() makes on the heap behind the allocation.
  abbrev made : a.Heap × ℕ
  made = a.new_info entry allocated.0

  pub construct_sized-ok :
      allocated.1 ≡ 0
      → allocated.2 ≢ 0
      → (prepare size succeeding thread entry p.signals).1 ≡ ok tt
      → construct_sized a size succeeding entry n p
        ≡ (record { heap = made.0; signals = prepared }, ok thread)
  unfolding construct_sized prepare_with_context
  construct_sized-ok fine ne run =
      let zero : (allocated.1 == 0) ≡ true = ground arith in
      let some_buf : (allocated.2 == 0) ≡ false = ground arith in
      let some_context : (made.1 == 0) ≡ false = new_not_zero a law entry allocated.0 in
      rw (zero, some_buf, some_context, run) refl

  -- Where posix_memalign() and the calls for signals succeed and the sizes do not overflow, the
  -- constructor returns an object that owns a new block, aligned to 64 bytes, and whose jump buffer
  -- runs the entry point on the signal stack above it; the signal state is as before, and the
  -- destructor gives the block back, each address beginning a block then exactly where one began
  -- before; but the EntryContext that Prepare() has made is still there, in the object's life and
  -- behind its end.
  pub construct_sized-IsReady_setjmp :
      size + n + k_default_stack_size + 64 < 2 ^ 64
      → allocated.1 ≡ 0
      → (t : SetJmp) × (q : Process a) × (construct_sized a size succeeding entry n p ≡ (q, ok t))
        × (t.stack.addr % 64 ≡ 0)
        × (a.is_live p.heap t.stack.addr ≡ false)
        × ((b : ℕ) → a.is_live q.heap b ≡ (if t.stack.addr == b then true else a.is_live p.heap b))
        × IsReady size t entry p.signals q.signals
        × ((b : ℕ) → a.is_live (destroy a t q).heap b ≡ a.is_live p.heap b)
        × (a.info q.heap made.1 ≡ some entry)
        × (a.info (destroy a t q).heap made.1 ≡ some entry)
  unfolding destroy
  construct_sized-IsReady_setjmp room fine =
      let got = law.memalign 64 (alloc_size size n) p.heap fine in
      let fits = alloc_size_room size n room in
      let (run, ready) =
        prepare-IsReady size thread entry p.signals (omega (arith, room)) (omega (arith, fits))
          (omega (arith, fits, got.fits)) in
      let live : (b : ℕ)
          → a.is_live made.0 b ≡ (if allocated.2 == b then true else a.is_live p.heap b) =
        λ b. law.new_live entry allocated.0 b ∙ got.live b in
      (
        thread,
        record { heap = made.0; signals = prepared },
        construct_sized-ok fine got.not_null run,
        got.aligned,
        got.fresh,
        live,
        ready,
        λ b.
            law.free_live allocated.2 made.0 b
            ∙ freed allocated.2 b (a.is_live made.0) (a.is_live p.heap) (live b) got.fresh,
        law.new_stores entry allocated.0,
        law.free_info allocated.2 made.0 made.1 ∙ law.new_stores entry allocated.0,
      )

  abbrev failing : ℕ → ℕ → ℕ → Results
  failing alt action raise = record { sigaltstack = alt; sigaction = action; raise = raise }

  -- Where posix_memalign() succeeds and sigaltstack(), sigaction() or raise() fails, the constructor
  -- throws, so that no destructor runs, and the new block stays allocated; the EntryContext that
  -- Prepare() has made is deleted.
  pub construct_sized_leaks :
      (alt action raise : ℕ)
      → allocated.1 ≡ 0
      → (alt ≢ 0) ⊎ (action ≢ 0) ⊎ (raise ≢ 0)
      → (e : Error) × ((construct_sized a size (failing alt action raise) entry n p).1 ≡ throws e)
        × (a.is_live p.heap allocated.2 ≡ false)
        × (a.is_live
              (construct_sized a size (failing alt action raise) entry n p).0.heap
              allocated.2
            ≡ true)
        × (a.info (construct_sized a size (failing alt action raise) entry n p).0.heap made.1
            ≡ none)
  unfolding construct_sized prepare_with_context
  construct_sized_leaks alt action raise fine failed =
      let got = law.memalign 64 (alloc_size size n) p.heap fine in
      let zero : (allocated.1 == 0) ≡ true = ground arith in
      let some_buf : (allocated.2 == 0) ≡ false = ground (arith, got.not_null) in
      let (e, thrown) = prepare_throws size thread entry p.signals alt action raise failed in
      let some_context : (made.1 == 0) ≡ false = new_not_zero a law entry allocated.0 in
      let live : a.is_live (a.delete_info made.1 made.0) allocated.2 ≡ true =
        law.delete_info_live made.1 made.0 allocated.2
        ∙ law.new_live entry allocated.0 allocated.2
        ∙ ground (arith, got.live allocated.2) in
      (
        e,
        rw (zero, some_buf, some_context, thrown) refl,
        got.fresh,
        rw (zero, some_buf, some_context, thrown) live,
        rw (zero, some_buf, some_context, thrown) (law.delete_info_lem made.1 made.0),
      )
