-- ===== src/Programs/StackAccessors.antt =====
-- src/test/src/basic.cpp: "stack accessors", for the SetJmp backend, which puts its
-- sigjmp_buf at the start of the stack that they allocate.
use libcommunism.Base.{ℕ, ◌+◌, ◌*◌, ◌/◌, ◌%◌, ◌^◌, ◌≤◌, ◌<◌, ◌≡◌, ◌≢◌, ◌↔◌, refl, false, ok, arith}
use libcommunism.Span.{clear_low}
use libcommunism.Heap.{Allocator, IsAllocator, new_not_zero}
use libcommunism.Impl.{CothreadImpl, word64, get_stack, get_stack_size}
use libcommunism.SetJmp.{
  SetJmp, Process, alloc_size, construct_sized, construct_span, round_up, prepare,
  prepare_with_context, Results,
}
use libcommunism.SetJmp.Life.{construct_sized-ok}

abbrev pub k_stack_size : ℕ
k_stack_size = 1024 * 128

-- What the test requires of a cothread whose stack the library allocates, and of one whose stack is
-- given: which begins at `start`.
unfoldable pub AcceptsAllocated : CothreadImpl → Type 0
AcceptsAllocated impl = (get_stack_size word64 impl ≤ k_stack_size + 1024) × (get_stack impl ≢ 0)

unfoldable pub AcceptsGiven : (start : ℕ) → CothreadImpl → Type 0
AcceptsGiven start impl =
    (k_stack_size ≤ get_stack_size word64 impl + 1024 * 4)
    × (get_stack_size word64 impl ≤ k_stack_size + 1024)
    × (get_stack impl ≢ 0)
    × (start ≤ get_stack impl)

size_lem :
    (size : ℕ)
    → size < 2 ^ 63
    → (alloc_size size k_stack_size / 8 * 8 % 2 ^ 64 ≤ k_stack_size + 1024) ↔ (size ≤ 1024)
unfolding alloc_size clear_low round_up
size_lem size small = ground arith

module _ {E : Type 0} (a : Allocator E) (size : ℕ) (entry : E) (p : Process a) where
  abbrev succeeding : Results
  succeeding = record { sigaltstack = 0; sigaction = 0; raise = 0 }

  -- Where posix_memalign() and the calls for signals succeed, the constructor returns for the size that
  -- the test asks for, and what the test requires of the stack's accessors holds exactly where a
  -- sigjmp_buf has at most 1024 bytes.
  pub AcceptsAllocated-construct_sized :
      IsAllocator (2 ^ 64) a
      → size < 2 ^ 63
      → (a.posix_memalign 64 (alloc_size size k_stack_size) p.heap).1 ≡ 0
      → (t : SetJmp) × (q : Process a) × (construct_sized a size succeeding entry k_stack_size p
          ≡ (q, ok t))
        × (AcceptsAllocated (record { stack = t.stack }) ↔ (size ≤ 1024))
  unfolding AcceptsAllocated get_stack get_stack_size prepare
  AcceptsAllocated-construct_sized law small fine =
      let got = law.memalign 64 (alloc_size size k_stack_size) p.heap fine in
      let (fits, back) = size_lem size small in
      (
        _,
        _,
        construct_sized-ok a law size entry k_stack_size p fine got.not_null refl,
        (λ h. fits h.0, λ h. (back h, got.not_null)),
      )

  abbrev given : ℕ → SetJmp
  given start = record {
    stack = record { addr = start; size = k_stack_size / 8 };
    owns_stack = false;
  }

  -- The same over a stack of that size that the test gives.
  AcceptsGiven-construct_span :
      (start : ℕ)
      → IsAllocator (2 ^ 64) a
      → start ≢ 0
      → start + k_stack_size < 2 ^ 64
      → (t : SetJmp) × (q : Process a) × (construct_span a size succeeding entry
            (record { addr = start; size = k_stack_size / 8 })
            p
          ≡ (q, ok t))
        × AcceptsGiven start (record { stack = t.stack })
  unfolding AcceptsGiven get_stack get_stack_size construct_span prepare prepare_with_context
  AcceptsGiven-construct_span start law ne fits = (
    given start,
    record {
      heap = (a.new_info entry p.heap).0;
      signals = (prepare size succeeding (given start) entry p.signals).0;
    },
    rw (new_not_zero a law entry p.heap) refl,
    (omega arith, omega arith, ne, omega arith),
  )
