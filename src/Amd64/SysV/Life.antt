-- ===== src/Amd64/SysV/Life.antt =====
-- The life of an Amd64 object under the System V ABI: the constructors of
-- src/arch/amd64/Common.cpp with the methods of src/arch/amd64/SysV.cpp, and the destructor.
use mathlib.Core.Path.{subst}
use libcommunism.Base.{
  ℕ, ◌+◌, ◌*◌, ◌/◌, ◌%◌, ◌^◌, ◌≤◌, ◌<◌, ◌≡◌, ◌≢◌, ◌⊎◌, refl, ◌∙◌, true, false, ok, throws, ok-inj,
  ok-not_throws, Bool-cases, inl, inr, sym, some, posix_memalign_failed, arith, ◌==◌, if◌then◌else◌,
}
use libcommunism.Memory.{Apart}
use libcommunism.Span.{clear_low}
use libcommunism.Impl.{word64}
use libcommunism.Heap.{Allocator, IsAllocator, Process, freed}
use libcommunism.Machine.Frame.{HasRoom}
use libcommunism.Amd64.Object.{Amd64, Abi, Symbols, cothread_off_context_top}
use libcommunism.Amd64.Common.{alloc_size, construct_sized, destroy}
use libcommunism.Amd64.Common.Sizes.{alloc_size_aligned, alloc_size_cases}
use libcommunism.Amd64.SysV.{
  k_num_saved_registers, validate_stack_size, alloc_stack, dealloc_stack, build_frame, prepare,
}
use libcommunism.Amd64.SysV.Entry.{IsPrepared, build_frame-IsPrepared}

module _ {E : Type 0} (a : Allocator E) (f : Symbols) where
  unfoldable pub sysv : Abi a
  sysv = record {
    validate_stack_size = validate_stack_size;
    alloc_stack = alloc_stack a;
    dealloc_stack = dealloc_stack a;
    prepare = prepare a f;
  }

-- What the constructor leaves of a request for `n` bytes: an aligned stack of the rounded size, a
-- new block that the object owns, a call info that stores the entry point, and a frame that
-- starts it.
pub record IsCreated {E : Type 0} (a : Allocator E) (f : Symbols) (entry : E) (n this info : ℕ)
    (p : Process a) (t : Amd64) (q : Process a) : Type 0 where
  pub this_kept : t.this ≡ this
  pub owns : t.owns_stack ≡ true
  pub size : t.stack.size * 8 ≡ alloc_size n
  pub aligned : t.stack.addr % 64 ≡ 0
  pub fresh : a.is_live p.heap t.stack.addr ≡ false
  pub live : (b : ℕ) → a.is_live q.heap b ≡ (if t.stack.addr == b then true else a.is_live p.heap b)
  pub stored : a.info q.heap info ≡ some entry
  pub prepared : IsPrepared f t info p.mem q.mem

module _ {E : Type 0} (a : Allocator E) (law : IsAllocator (2 ^ 64) a) (f : Symbols) (this : ℕ)
    (entry : E) (n : ℕ) (p : Process a) where
  abbrev pub allocated : a.Heap × ℕ × ℕ
  allocated = a.posix_memalign 64 (alloc_size n) p.heap

  -- A failure of posix_memalign() is the exception that the sources name, and nothing is built.
  pub construct_sized-throws :
      allocated.1 ≢ 0 → construct_sized a (sysv a f) this entry n p ≡ throws posix_memalign_failed
  unfolding construct_sized sysv alloc_stack
  construct_sized-throws failed = ground arith

  abbrev pub made : Amd64
  made = record {
    this = this;
    stack = record { addr = allocated.2; size = alloc_size n / 8 };
    owns_stack = true;
  }

  abbrev pub informed : a.Heap × ℕ
  informed = a.new_info entry allocated.0

  abbrev pub after : Process a
  after = record { mem = build_frame f made informed.1 p.mem; heap = informed.0 }

  construct_sized-ok :
      allocated.1 ≡ 0 → construct_sized a (sysv a f) this entry n p ≡ ok (made, after)
  unfolding construct_sized sysv alloc_stack prepare
  construct_sized-ok fine = ground (arith, law.new_not_null entry allocated.0)

  pub made-HasRoom :
      allocated.1 ≡ 0
      → (n < 64) ⊎ (192 ≤ n)
      → Apart allocated.2 (allocated.2 + alloc_size n) (this + cothread_off_context_top)
      → HasRoom word64 cothread_off_context_top k_num_saved_registers made.this made.stack
  unfolding clear_low
  made-HasRoom fine large apart = record {
    fits = rw (alloc_size_aligned n).2 (law.memalign 64 (alloc_size n) p.heap fine).fits;
    room = omega (arith, alloc_size_aligned n, alloc_size_cases n);
    apart = rw (alloc_size_aligned n).2 apart;
  }

  -- Where posix_memalign() succeeds and the block does not overlap the object's own field, a request
  -- for 0 bytes, for less than the alignment, or for at least 192 bytes constructs an object, which
  -- owns a new block of the rounded size, aligned to 64 bytes; no other block changes, a CallInfo
  -- stores the entry point, and the block holds the first frame.
  pub construct_sized-IsCreated :
      allocated.1 ≡ 0
      → (n < 64) ⊎ (192 ≤ n)
      → Apart allocated.2 (allocated.2 + alloc_size n) (this + cothread_off_context_top)
      → (t : Amd64) × (q : Process a) × (info : ℕ) × (construct_sized a (sysv a f) this entry n p
          ≡ ok (t, q))
        × IsCreated a f entry n this info p t q
  construct_sized-IsCreated fine large apart =
      let got = law.memalign 64 (alloc_size n) p.heap fine in
      (
        made,
        after,
        informed.1,
        construct_sized-ok fine,
        record {
          this_kept = refl;
          owns = refl;
          size = (alloc_size_aligned n).2;
          aligned = got.aligned;
          fresh = got.fresh;
          live = λ b. law.new_live entry allocated.0 b ∙ got.live b;
          stored = law.new_stores entry allocated.0;
          prepared = build_frame-IsPrepared f made informed.1 p.mem (made-HasRoom fine large apart);
        },
      )

  pub made_unique :
      (t : Amd64) (q : Process a)
      → construct_sized a (sysv a f) this entry n p ≡ ok (t, q)
      → (allocated.1 ≡ 0) × (◌≡◌ {A = Amd64 × Process a} (made, after) (t, q))
  made_unique t q e = elim (Bool-cases (allocated.1 == 0)) [
    | inl fine ↦
        let zero : allocated.1 ≡ 0 = ground arith in
        (zero, ok-inj (sym (construct_sized-ok zero) ∙ e))
    | inr failed ↦
        let thrown : construct_sized a (sysv a f) this entry n p ≡ throws posix_memalign_failed =
          construct_sized-throws (ground arith) in
        absurd (ok-not_throws (sym e ∙ thrown))
  ]

  -- What the destruction of the object `t` leaves of the heap of `q`.
  abbrev IsReleased : Amd64 × Process a → Type 0
  IsReleased (t, q) =
      ((b : ℕ) → a.is_live (destroy a (sysv a f) t q).heap b ≡ a.is_live p.heap b)
      × (a.info (destroy a (sysv a f) t q).heap informed.1 ≡ some entry)

  made-IsReleased : allocated.1 ≡ 0 → IsReleased (made, after)
  unfolding destroy sysv dealloc_stack
  made-IsReleased fine =
      let got = law.memalign 64 (alloc_size n) p.heap fine in
      (
        λ b.
            law.free_live allocated.2 informed.0 b
            ∙ freed allocated.2 b (a.is_live informed.0) (a.is_live p.heap)
                (law.new_live entry allocated.0 b ∙ got.live b) got.fresh,
        law.free_info allocated.2 informed.0 informed.1 ∙ law.new_stores entry allocated.0,
      )

  -- The destructor of a constructed object gives back the blocks that the constructor took, each
  -- address being live exactly where it was before; the CallInfo of a cothread that never ran is
  -- still allocated, and stores the entry point.
  pub destroy-construct_sized :
      (t : Amd64) (q : Process a)
      → construct_sized a (sysv a f) this entry n p ≡ ok (t, q)
      → ((b : ℕ) → a.is_live (destroy a (sysv a f) t q).heap b ≡ a.is_live p.heap b)
        × (a.info (destroy a (sysv a f) t q).heap informed.1 ≡ some entry)
  destroy-construct_sized t q e =
      let (fine, same) = made_unique t q e in subst IsReleased same (made-IsReleased fine)
