-- ===== src/X86/Life.antt =====
-- The life of an x86 object: the constructor of src/arch/x86/Common.cpp that allocates its stack, on
-- Windows and elsewhere, and the destructor.
use libcommunism.Base.{
  ℕ, ◌+◌, ◌*◌, ◌/◌, ◌%◌, ◌^◌, ◌≤◌, ◌<◌, ◌≡◌, ◌≢◌, ◌⊎◌, refl, sym, ◌∙◌, Bool-cases, inl, inr, true,
  false, ok, ok-inj, ok-not_throws, throws, posix_memalign_failed, some, arith, ◌==◌, if◌then◌else◌,
}
use mathlib.Core.Path.{subst}
use libcommunism.Memory.{Apart}
use libcommunism.Span.{clear_low}
use libcommunism.Impl.{word32}
use libcommunism.Heap.{Allocator, IsAllocator, Allocates, Process, freed}
use libcommunism.Machine.Frame.{HasRoom}
use libcommunism.X86.{
  X86, Symbols, Platform, posix, windows, cothread_off_context_top, k_num_saved_registers,
  alloc_size, build_frame, stack_memory, alloc_stack, dealloc_stack, prepare, construct_sized,
  destroy,
}
use libcommunism.X86.Entry.{IsPrepared, build_frame-IsPrepared}

pub alloc_size_aligned :
    (n : ℕ)
    → (alloc_size n % 16 ≡ 0)
      × (16 ≤ alloc_size n)
      × (alloc_size n / 4 * 4 ≡ alloc_size n)
      × ((n < 16) ⊎ (64 ≤ n) → 64 ≤ alloc_size n)
unfolding alloc_size clear_low
alloc_size_aligned n = (ground arith, ground arith, ground arith, λ large. ground arith)

-- What the constructor leaves of a request for `n` bytes: an aligned stack of the rounded size, a new
-- block that the object owns, a call info that stores the entry point, and a frame that starts it.
pub record IsCreated {E : Type 0} (a : Allocator E) (f : Symbols) (entry : E) (n this info : ℕ)
    (p : Process a) (t : X86) (q : Process a) : Type 0 where
  pub this_kept : t.this ≡ this
  pub owns : t.owns_stack ≡ true
  pub size : t.stack.size * 4 ≡ alloc_size n
  pub aligned : t.stack.addr % 16 ≡ 0
  pub fresh : a.is_live p.heap t.stack.addr ≡ false
  pub live : (b : ℕ) → a.is_live q.heap b ≡ (if t.stack.addr == b then true else a.is_live p.heap b)
  pub stored : a.info q.heap info ≡ some entry
  pub prepared : IsPrepared f t info p.mem q.mem

module _ {E : Type 0} (a : Allocator E) (law : IsAllocator (2 ^ 32) a) where
  memory-Allocates :
      (platform : Platform) (bytes buf : ℕ) (h h' : a.Heap)
      → stack_memory a platform bytes h ≡ ok (h', buf)
      → buf ≢ 0
      → Allocates a 16 bytes (2 ^ 32) buf h h'
  unfolding stack_memory
  memory-Allocates posix bytes buf h h' e ne =
      elim (Bool-cases ((a.posix_memalign 16 bytes h).1 == 0)) [
        | inl fine ↦
            let run : stack_memory a posix bytes h
                ≡ ok ((a.posix_memalign 16 bytes h).0, (a.posix_memalign 16 bytes h).2) =
              rw fine refl in
            subst (λ r. Allocates a 16 bytes (2 ^ 32) r.1 h r.0) (ok-inj (sym run ∙ e))
              (law.memalign 16 bytes h (ground arith))
        | inr failed ↦
            let thrown : stack_memory a posix bytes h ≡ throws posix_memalign_failed =
              rw failed refl in
            absurd (ok-not_throws (sym e ∙ thrown))
      ]
  memory-Allocates windows bytes buf h h' e ne =
      let same = ok-inj e in
      subst (λ r. Allocates a 16 bytes (2 ^ 32) r.1 h r.0) same
        (law.malloc 16 bytes h (λ z. ne ((λ i. (sym same i).1) ∙ z)))

  released :
      (platform : Platform) (t : X86) (q : Process a) (b : ℕ)
      → t.owns_stack ≡ true
      → a.is_live (destroy a platform t q).heap b
        ≡ (if t.stack.addr == b then false else a.is_live q.heap b)
  unfolding destroy dealloc_stack
  released posix t q b owns = rw owns (law.free_live t.stack.addr q.heap b)
  released windows t q b owns = rw owns (law.aligned_free_live t.stack.addr q.heap b)

  module _ (platform : Platform) (f : Symbols) (this : ℕ) (entry : E) (n buf : ℕ) (heap : a.Heap)
      (p : Process a) where
    abbrev pub made : X86
    made = record {
      this = this;
      stack = record { addr = buf; size = alloc_size n / 4 };
      owns_stack = true;
    }

    abbrev pub after : Process a
    after = record {
      mem = build_frame f made (a.new_info entry heap).1 p.mem;
      heap = (a.new_info entry heap).0;
    }

    pub made-HasRoom :
        stack_memory a platform (alloc_size n) p.heap ≡ ok (heap, buf)
        → buf ≢ 0
        → (n < 16) ⊎ (64 ≤ n)
        → Apart buf (buf + alloc_size n) (this + cothread_off_context_top)
        → HasRoom word32 cothread_off_context_top k_num_saved_registers this made.stack
    unfolding clear_low
    made-HasRoom got ne large apart =
        let block = memory-Allocates platform (alloc_size n) buf p.heap heap got ne in
        let (whole, least, words, room) = alloc_size_aligned n in
        record {
          fits = rw words block.fits;
          room = omega (arith, words, room large, whole);
          apart = rw words apart;
        }

    pub construct_sized-ok :
        stack_memory a platform (alloc_size n) p.heap ≡ ok (heap, buf)
        → buf ≢ 0
        → construct_sized a platform f this entry n p ≡ ok (made, after)
    unfolding construct_sized alloc_stack prepare
    construct_sized-ok got ne =
        let some_buf : (buf == 0) ≡ false = ground arith in
        let some_info : ((a.new_info entry heap).1 == 0) ≡ false =
          ground (arith, law.new_not_null entry heap) in
        rw (got, some_buf, some_info) refl

    -- On Windows and elsewhere: where the allocation of the stack succeeds and the block does not overlap
    -- the object's own field, a request for less than the alignment or for at least 64 bytes
    -- constructs an object, which owns a new block of the rounded size, aligned to 16 bytes; no
    -- other block changes, a CallInfo stores the entry point, and the block holds the first frame. The
    -- destructor gives the block back, each address being live then exactly where it was before.
    pub construct_sized-IsCreated_x86 :
        stack_memory a platform (alloc_size n) p.heap ≡ ok (heap, buf)
        → buf ≢ 0
        → (n < 16) ⊎ (64 ≤ n)
        → Apart buf (buf + alloc_size n) (this + cothread_off_context_top)
        → (t : X86) × (q : Process a) × (info : ℕ) × (construct_sized a platform f this entry n p
            ≡ ok (t, q))
          × IsCreated a f entry n this info p t q
          × ((b : ℕ) → a.is_live (destroy a platform t q).heap b ≡ a.is_live p.heap b)
    unfolding clear_low
    construct_sized-IsCreated_x86 got ne large apart =
        let block = memory-Allocates platform (alloc_size n) buf p.heap heap got ne in
        let (whole, least, words, room) = alloc_size_aligned n in
        let live : (b : ℕ)
            → a.is_live after.heap b ≡ (if buf == b then true else a.is_live p.heap b) =
          λ b. law.new_live entry heap b ∙ block.live b in
        (
          made,
          after,
          (a.new_info entry heap).1,
          construct_sized-ok got ne,
          record {
            this_kept = refl;
            owns = refl;
            size = words;
            aligned = block.aligned;
            fresh = block.fresh;
            live = live;
            stored = law.new_stores entry heap;
            prepared =
                build_frame-IsPrepared f made (a.new_info entry heap).1 p.mem
                  (made-HasRoom got ne large apart);
          },
          λ b.
              released platform made after b refl
              ∙ freed buf b (a.is_live after.heap) (a.is_live p.heap) (live b) block.fresh,
        )
