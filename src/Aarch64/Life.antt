-- ===== src/Aarch64/Life.antt =====
-- The life of an Aarch64 object: the constructor of src/arch/aarch64/Common.cpp that allocates its
-- stack, with the methods of AAPCS.cpp, and the destructor.
use libcommunism.Base.{
  ℕ, ◌+◌, ◌*◌, ◌/◌, ◌%◌, ◌^◌, ◌≤◌, ◌<◌, ◌≡◌, ◌≢◌, refl, ◌∙◌, true, false, ok, throws, some,
  posix_memalign_failed, arith, ◌==◌, if◌then◌else◌,
}
use libcommunism.Memory.{Apart}
use libcommunism.Span.{clear_low}
use libcommunism.Heap.{Allocator, IsAllocator, Process, freed}
use libcommunism.Aarch64.{
  Aarch64, cothread_off_context_top, k_context_save_area_size, alloc_size, build_context,
  alloc_stack, dealloc_stack, prepare, construct_sized, destroy,
}
use libcommunism.Aarch64.Prepare.{IsReady, build_context-IsReady}

-- A multiple of the alignment, and so of the word size, with room for the context.
alloc_size_room :
    (n : ℕ)
    → n + k_context_save_area_size < 2 ^ 64
    → (k_context_save_area_size + 64 ≤ alloc_size n) × (alloc_size n / 8 * 8 ≡ alloc_size n)
unfolding alloc_size clear_low
alloc_size_room n room = (ground arith, ground arith)

-- What the constructor leaves of a request for `n` bytes: an aligned stack of the rounded size, a new
-- block that the object owns, a call info that stores the entry point, and a context that starts it.
pub record IsCreated {E : Type 0} (a : Allocator E) (entry_stub : ℕ) (entry : E) (n this info : ℕ)
    (p : Process a) (t : Aarch64) (q : Process a) : Type 0 where
  pub this_kept : t.this ≡ this
  pub owns : t.owns_stack ≡ true
  pub size : t.stack.size * 8 ≡ alloc_size n
  pub aligned : t.stack.addr % 64 ≡ 0
  pub fresh : a.is_live p.heap t.stack.addr ≡ false
  pub live : (b : ℕ) → a.is_live q.heap b ≡ (if t.stack.addr == b then true else a.is_live p.heap b)
  pub stored : a.info q.heap info ≡ some entry
  pub ready : IsReady entry_stub t info p.mem q.mem

module _ {E : Type 0} (a : Allocator E) (law : IsAllocator (2 ^ 64) a) (entry_stub this : ℕ)
    (entry : E) (n : ℕ) (p : Process a) where
  abbrev pub allocated : a.Heap × ℕ × ℕ
  allocated = a.posix_memalign 64 (alloc_size n) p.heap

  -- A failure of posix_memalign() is the exception that the sources name, and nothing is built.
  pub construct_sized-throws_arm :
      allocated.1 ≢ 0 → construct_sized a entry_stub this entry n p ≡ throws posix_memalign_failed
  unfolding construct_sized alloc_stack
  construct_sized-throws_arm failed = ground arith

  abbrev pub made : Aarch64
  made = record {
    this = this;
    stack = record { addr = allocated.2; size = alloc_size n / 8 };
    owns_stack = true;
  }

  abbrev pub informed : a.Heap × ℕ
  informed = a.new_info entry allocated.0

  abbrev pub after : Process a
  after = record { mem = build_context entry_stub made informed.1 p.mem; heap = informed.0 }

  pub construct_sized-ok :
      allocated.1 ≡ 0 → construct_sized a entry_stub this entry n p ≡ ok (made, after)
  unfolding construct_sized alloc_stack prepare
  construct_sized-ok fine = ground (arith, law.new_not_null entry allocated.0)

  pub after-IsReady :
      allocated.1 ≡ 0
      → n + k_context_save_area_size < 2 ^ 64
      → Apart allocated.2 (allocated.2 + alloc_size n) (this + cothread_off_context_top)
      → IsReady entry_stub made informed.1 p.mem after.mem
  after-IsReady fine room apart =
      let got = law.memalign 64 (alloc_size n) p.heap fine in
      let (least, words) = alloc_size_room n room in
      build_context-IsReady entry_stub made informed.1 p.mem (omega (arith, words, got.fits))
        (omega (arith, apart, least))

  -- Where posix_memalign() succeeds, the request does not overflow with the 256 bytes of the context,
  -- and the block does not overlap the object's own field, the constructor returns an object, which
  -- owns a new block of the rounded size, aligned to 64 bytes; no other block changes, a CallInfo
  -- stores the entry point, and the block holds the first context. The destructor gives the block
  -- back, each address being live then exactly where it was before.
  pub construct_sized-IsCreated_arm :
      allocated.1 ≡ 0
      → n + k_context_save_area_size < 2 ^ 64
      → Apart allocated.2 (allocated.2 + alloc_size n) (this + cothread_off_context_top)
      → (t : Aarch64) × (q : Process a) × (info : ℕ) × (construct_sized a entry_stub this entry n p
          ≡ ok (t, q))
        × IsCreated a entry_stub entry n this info p t q
        × ((b : ℕ) → a.is_live (destroy a t q).heap b ≡ a.is_live p.heap b)
  unfolding destroy dealloc_stack
  construct_sized-IsCreated_arm fine room apart =
      let got = law.memalign 64 (alloc_size n) p.heap fine in
      let (least, words) = alloc_size_room n room in
      let live : (b : ℕ)
          → a.is_live after.heap b ≡ (if allocated.2 == b then true else a.is_live p.heap b) =
        λ b. law.new_live entry allocated.0 b ∙ got.live b in
      (
        made,
        after,
        informed.1,
        construct_sized-ok fine,
        record {
          this_kept = refl;
          owns = refl;
          size = words;
          aligned = got.aligned;
          fresh = got.fresh;
          live = live;
          stored = law.new_stores entry allocated.0;
          ready = after-IsReady fine room apart;
        },
        λ b.
            law.free_live allocated.2 informed.0 b
            ∙ freed allocated.2 b (a.is_live informed.0) (a.is_live p.heap) (live b) got.fresh,
      )
