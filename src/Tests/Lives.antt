-- ===== src/Tests/Lives.antt =====
-- Objects of the backends over the C library, on the allocator of `Fixtures`.
use libcommunism.Base.{
  ℕ, ◌%◌, ◌≡◌, ◌↔◌, ◌≤◌, inr, refl, true, false, none, some, Error, Outcome, ok, throws, arith,
  ◌==◌, if◌then◌else◌,
}
use libcommunism.Programs.StackAccessors.{
  k_stack_size, AcceptsAllocated, AcceptsAllocated-construct_sized,
}
use libcommunism.Span.{clear_low}
use libcommunism.UContext.{UContext, Made}
use libcommunism.UContext
use libcommunism.UContext.Life as UContextLife
use libcommunism.SetJmp.{SetJmp, Results}
use libcommunism.SetJmp
use libcommunism.SetJmp.Prepare.{IsReady}
use libcommunism.SetJmp.Life as SetJmpLife
use libcommunism.UContext.Returned as UContextReturned
use libcommunism.Cothread.{Runtime}
use libcommunism.Tests.Runs.{recorder, left}
use libcommunism.Tests.Swaps.{later}
use libcommunism.Tests.Fixtures.{blocks, blocks-IsAllocator}

abbrev idle : UContext.Process blocks
idle = record {
  heap = (λ q. false, λ q. none);
  contexts = record { next_id = 0; info = λ id. none };
}

construct_sized-IsCreated_ucontext_example :
    (t : UContext) × (made : Made) × (q : UContext.Process blocks) × (UContext.construct_sized
        blocks 200 0 5 256 idle
      ≡ ok (t, made, q))
    × UContextLife.IsCreated blocks 200 5 256 idle t made q
    × ((b : ℕ) → blocks.is_live (UContext.destroy blocks t q).heap b ≡ false)
unfolding UContext.alloc_size UContext.round_up clear_low
construct_sized-IsCreated_ucontext_example =
    UContextLife.construct_sized-IsCreated_ucontext blocks blocks-IsAllocator 200 5 256 idle
      (omega arith) (λ e. omega (arith, e)) refl

abbrev quiet : SetJmp.Process blocks
quiet = record {
  heap = (λ q. false, λ q. none);
  signals = record {
    alt_stack = record { ss_sp = 1; ss_size = 2 };
    action = SetJmp.other_action 3;
    preparing = none;
    jumps = λ p. none;
  };
}

abbrev results : ℕ → Results
results raise = record { sigaltstack = 0; sigaction = 0; raise = raise }

construct_sized-IsReady_setjmp_example :
    (t : SetJmp) × (q : SetJmp.Process blocks) × (SetJmp.construct_sized blocks 200
        (results 0)
        5
        256
        quiet
      ≡ (q, ok t))
    × (t.stack.addr % 64 ≡ 0)
    × (false ≡ false)
    × ((b : ℕ) → blocks.is_live q.heap b ≡ (if t.stack.addr == b then true else false))
    × IsReady 200 t 5 quiet.signals q.signals
    × ((b : ℕ) → blocks.is_live (SetJmp.destroy blocks t q).heap b ≡ false)
    × (blocks.info q.heap 7 ≡ some 5)
    × (blocks.info (SetJmp.destroy blocks t q).heap 7 ≡ some 5)
unfolding SetJmp.alloc_size SetJmp.round_up clear_low
construct_sized-IsReady_setjmp_example =
    SetJmpLife.construct_sized-IsReady_setjmp blocks blocks-IsAllocator 200 5 256 quiet
      (omega arith) refl

construct_sized_leaks_example :
    (e : Error) × ((SetJmp.construct_sized blocks 200 (results 1) 5 256 quiet).1 ≡ throws e)
    × (blocks.is_live quiet.heap 64 ≡ false)
    × (blocks.is_live (SetJmp.construct_sized blocks 200 (results 1) 5 256 quiet).0.heap 64 ≡ true)
    × (blocks.info (SetJmp.construct_sized blocks 200 (results 1) 5 256 quiet).0.heap 7 ≡ none)
unfolding SetJmp.alloc_size SetJmp.round_up clear_low
construct_sized_leaks_example =
    SetJmpLife.construct_sized_leaks blocks blocks-IsAllocator 200 5 256 quiet 0 0 1 refl
      (inr (inr (λ e. omega (arith, e))))

-- Entry points that return in the state `left`, with the map as they got it.
abbrev run_context :
    ℕ
    → UContext.Contexts ℕ
    → Runtime ℕ recorder
    → Outcome (UContext.Contexts ℕ × Runtime ℕ recorder)
run_context entry c r = ok (c, left)

-- The map behind the EntryStub() of the entry point 11.
abbrev contexts_after : UContext.Contexts ℕ
contexts_after = record later { info = λ q. if 2 == q then none else later.info q }

AcceptsAllocated-construct_sized_example :
    (t : SetJmp) × (q : SetJmp.Process blocks) × (SetJmp.construct_sized blocks 200
        (results 0)
        5
        k_stack_size
        quiet
      ≡ (q, ok t))
    × (AcceptsAllocated (record { stack = t.stack }) ↔ (200 ≤ 1024))
unfolding SetJmp.alloc_size SetJmp.round_up clear_low
AcceptsAllocated-construct_sized_example =
    AcceptsAllocated-construct_sized blocks 200 5 quiet blocks-IsAllocator (omega arith) refl
