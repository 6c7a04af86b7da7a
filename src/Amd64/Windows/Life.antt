-- ===== src/Amd64/Windows/Life.antt =====
-- The life of an Amd64 object under the Windows ABI: the constructors of
-- src/arch/amd64/Common.cpp with the methods of src/arch/amd64/Windows.cpp, and the destructor.
use libcommunism.Base.{
  ℕ, ◌+◌, ◌*◌, ◌/◌, ◌%◌, ◌^◌, ◌≤◌, ◌<◌, ◌≡◌, ◌≢◌, ◌⊎◌, refl, ◌∙◌, true, false, ok, throws, some, [],
  ◌∷◌, failed_to_allocate_stack, arith, ◌==◌, if◌then◌else◌,
}
use libcommunism.Memory.{Apart, Memory}
use libcommunism.Span.{clear_low}
use libcommunism.Impl.{word64}
use libcommunism.Heap.{Allocator, IsAllocator, Process, freed}
use libcommunism.Machine.Cursor.{push_words}
use libcommunism.Machine.Frame.{HasRoom, Prepared, prepare_shape, prepare_shape-Prepared}
use libcommunism.Amd64.Object.{Amd64, Abi, Symbols, cothread_off_context_top}
use libcommunism.Amd64.Common.{alloc_size, construct_sized, destroy}
use libcommunism.Amd64.Common.Sizes.{alloc_size_aligned, alloc_size_cases}
use libcommunism.Amd64.Windows.{
  k_num_saved_registers, validate_stack_size, alloc_stack, dealloc_stack, build_frame, prepare,
}

pub build_frame-shape :
    (f : Symbols) (wrap : Amd64) (info : ℕ) (m : Memory)
    → build_frame f wrap info m
      ≡ prepare_shape word64 cothread_off_context_top k_num_saved_registers
          (f.entry_returned_stub ∷ info ∷ f.dereference_call_info ∷ f.jump_to_entry ∷ [])
          wrap.this
          wrap.stack
          m
unfolding build_frame prepare_shape push_words
build_frame-shape f wrap info m = refl

abbrev pub IsPrepared : Symbols → Amd64 → ℕ → Memory → Memory → Type 0
IsPrepared f wrap info =
    Prepared word64 cothread_off_context_top k_num_saved_registers f.entry_returned_stub info
      f.dereference_call_info f.jump_to_entry wrap.this wrap.stack

pub build_frame-IsPrepared :
    (f : Symbols) (wrap : Amd64) (info : ℕ) (m : Memory)
    → HasRoom word64 cothread_off_context_top k_num_saved_registers wrap.this wrap.stack
    → IsPrepared f wrap info m (build_frame f wrap info m)
build_frame-IsPrepared f wrap info m room = rw (build_frame-shape f wrap info m) (
    prepare_shape-Prepared word64 (omega arith) cothread_off_context_top k_num_saved_registers
      f.entry_returned_stub info f.dereference_call_info f.jump_to_entry wrap.this wrap.stack m
      room)

module _ {E : Type 0} (a : Allocator E) (f : Symbols) where
  unfoldable pub windows : Abi a
  windows = record {
    validate_stack_size = validate_stack_size;
    alloc_stack = alloc_stack a;
    dealloc_stack = dealloc_stack a;
    prepare = prepare a f;
  }

-- What the constructor leaves of a request for `n` bytes: an aligned stack of the rounded size, a
-- new block that the object owns, a call info that stores the entry point, and a frame that
-- starts it.
pub record IsCreated {E : Type 0} (a : Allocator E) (f : Symbols) (entry : E) (n this info : ℕ)
    (p : Process a) (t : Amd64) (q : Process a) : Type 0 where
  pub this_kept : t.this ≡ this
  pub owns : t.owns_stack ≡ true
  pub size : t.stack.size * 8 ≡ alloc_size n
  pub aligned : t.stack.addr % 64 ≡ 0
  pub fresh : a.is_live p.heap t.stack.addr ≡ false
  pub live : (b : ℕ) → a.is_live q.heap b ≡ (if t.stack.addr == b then true else a.is_live p.heap b)
  pub stored : a.info q.heap info ≡ some entry
  pub prepared : IsPrepared f t info p.mem q.mem

module _ {E : Type 0} (a : Allocator E) (law : IsAllocator (2 ^ 64) a) (f : Symbols) (this : ℕ)
    (entry : E) (n : ℕ) (p : Process a) where
  abbrev pub allocated : a.Heap × ℕ
  allocated = a.aligned_malloc (alloc_size n) 64 p.heap

  -- A failure of _aligned_malloc() is the exception that the sources name, and nothing is built.
  pub construct_sized-throws_win :
      allocated.1 ≡ 0
      → construct_sized a (windows a f) this entry n p ≡ throws failed_to_allocate_stack
  unfolding construct_sized windows alloc_stack
  construct_sized-throws_win failed = ground arith

  abbrev pub made : Amd64
  made = record {
    this = this;
    stack = record { addr = allocated.1; size = alloc_size n / 8 };
    owns_stack = true;
  }

  abbrev pub informed : a.Heap × ℕ
  informed = a.new_info entry allocated.0

  abbrev pub after : Process a
  after = record { mem = build_frame f made informed.1 p.mem; heap = informed.0 }

  pub construct_sized-ok :
      allocated.1 ≢ 0 → construct_sized a (windows a f) this entry n p ≡ ok (made, after)
  unfolding construct_sized windows alloc_stack prepare
  construct_sized-ok fine = ground (arith, law.new_not_null entry allocated.0)

  pub made-HasRoom :
      allocated.1 ≢ 0
      → (n < 64) ⊎ (512 ≤ n)
      → Apart allocated.1 (allocated.1 + alloc_size n) (this + cothread_off_context_top)
      → HasRoom word64 cothread_off_context_top k_num_saved_registers made.this made.stack
  unfolding clear_low
  made-HasRoom fine large apart = record {
    fits = rw (alloc_size_aligned n).2 (law.malloc 64 (alloc_size n) p.heap fine).fits;
    room = omega (arith, alloc_size_aligned n, alloc_size_cases n);
    apart = rw (alloc_size_aligned n).2 apart;
  }

  -- Where _aligned_malloc() succeeds and the block does not overlap the object's own field, a request
  -- for less than the alignment or for at least 512 bytes constructs an object, which owns a new
  -- block of the rounded size, aligned to 64 bytes; no other block changes, a CallInfo stores the
  -- entry point, and the block holds the first frame with 28 zeroed words.
  pub construct_sized-IsCreated_win :
      allocated.1 ≢ 0
      → (n < 64) ⊎ (512 ≤ n)
      → Apart allocated.1 (allocated.1 + alloc_size n) (this + cothread_off_context_top)
      → (t : Amd64) × (q : Process a) × (info : ℕ) × (construct_sized a (windows a f) this entry n p
          ≡ ok (t, q))
        × IsCreated a f entry n this info p t q
  construct_sized-IsCreated_win fine large apart =
      let got = law.malloc 64 (alloc_size n) p.heap fine in
      (
        made,
        after,
        informed.1,
        construct_sized-ok fine,
        record {
          this_kept = refl;
          owns = refl;
          size = (alloc_size_aligned n).2;
          aligned = got.aligned;
          fresh = got.fresh;
          live = λ b. law.new_live entry allocated.0 b ∙ got.live b;
          stored = law.new_stores entry allocated.0;
          prepared = build_frame-IsPrepared f made informed.1 p.mem (made-HasRoom fine large apart);
        },
      )

  -- The destructor of a created object gives back its block, and keeps the CallInfo.
  pub destroy-construct_sized_win :
      (t : Amd64) (q : Process a) (info : ℕ)
      → IsCreated a f entry n this info p t q
      → ((b : ℕ) → a.is_live (destroy a (windows a f) t q).heap b ≡ a.is_live p.heap b)
        × (a.info (destroy a (windows a f) t q).heap info ≡ some entry)
  unfolding destroy windows dealloc_stack
  destroy-construct_sized_win t q info c = rw c.owns (
    λ b.
        law.aligned_free_live t.stack.addr q.heap b
        ∙ freed t.stack.addr b (a.is_live q.heap) (a.is_live p.heap) (c.live b) c.fresh,
    law.aligned_free_info t.stack.addr q.heap info ∙ c.stored,
  )
