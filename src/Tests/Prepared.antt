-- ===== src/Tests/Prepared.antt =====
-- Prepared cothreads of the other backends, and stacks that are too small.
use libcommunism.Base.{
  ℕ, ◌+◌, ◌*◌, ◌^◌, ◌≤◌, ◌<◌, ◌≡◌, inl, inr, refl, false, none, some, ok, throws, raise_failed,
  arith, ◌==◌, if◌then◌else◌,
}
use libcommunism.Memory.{Memory, write}
use libcommunism.Span.{Span}
use libcommunism.Aarch64.{Aarch64, validate_stack_size, build_context}
use libcommunism.Aarch64.Prepare.{build_context-overruns}
use libcommunism.UContext.{UContext, Made, Contexts}
use libcommunism.UContext.Prepare.{ContextCalls, prepare_in_memory, prepare_overruns}
use libcommunism.SetJmp
use libcommunism.SetJmp.Prepare

abbrev zeroed : Memory
zeroed q = 0

-- Objects on stacks of 512 and of 64 bytes.
abbrev large : Span
large = record { addr = 4096; size = 64 }

abbrev small : Span
small = record { addr = 4096; size = 8 }

abbrev thread : Span → Aarch64
thread stack = record { this = 1024; stack = stack; owns_stack = false }

build_context-overruns_example :
    ((thread small).stack.size * 8 ≡ 64)
    × (4096 + 64 ≤ 4096 + 0x60)
    × (build_context 9000 (thread small) 7 zeroed (4096 + 0x60) ≡ 4160)
unfolding validate_stack_size
build_context-overruns_example =
    build_context-overruns 9000 (thread small) 7 zeroed refl (omega arith) (omega arith)
      (inl (omega arith))

-- Two entry points are registered already, and the next ids go to those below.
abbrev contexts : Contexts ℕ
contexts = record {
  next_id = 2;
  info = λ id. if id == 1 then some 11 else (if id == 2 then some 12 else none);
}

abbrev ucontext : Span → UContext
ucontext stack = record { stack = stack; owns_stack = false }

-- getcontext() fills the first two words, and makecontext() the third.
abbrev context_calls : ContextCalls
context_calls = record {
  getcontext = λ p m. (write (write m p 1) (p + 8) 2, 0);
  makecontext = λ p made m. write m (p + 16) made.id;
}

prepare_overruns_example :
    (made : Made) × (d : Contexts ℕ) × ((prepare_in_memory context_calls 200
        (ucontext small)
        5
        zeroed
        contexts).1
      ≡ ok (made, d))
    × (2 ^ 63 < made.ss_size)
    × (prepare_in_memory context_calls 200 (ucontext small) 5 (write zeroed 4160 77) contexts
        ≡ prepare_in_memory context_calls 200 (ucontext small) 5 zeroed contexts)
prepare_overruns_example =
    prepare_overruns context_calls 200 (ucontext small) 5 zeroed contexts 4160 77
      (λ e. omega (arith, e)) (omega arith) (omega arith) (omega arith) (omega arith) (omega arith)
      refl

abbrev setjmp : SetJmp.SetJmp
setjmp = record { stack = large; owns_stack = false }

abbrev signals : SetJmp.Signals ℕ
signals = record {
  alt_stack = record { ss_sp = 1; ss_size = 2 };
  action = SetJmp.other_action 3;
  preparing = none;
  jumps = λ p. none;
}

abbrev not_raised : SetJmp.Results
not_raised = record { sigaltstack = 0; sigaction = 0; raise = 1 }

prepare_fails_example :
    ((SetJmp.prepare 200 not_raised setjmp 5 signals).1 ≡ throws raise_failed)
    × ((SetJmp.prepare 200 not_raised setjmp 5 signals).0.jumps 4096 ≡ none)
    × ((SetJmp.prepare 200 not_raised setjmp 5 signals).0.alt_stack
        ≡ SetJmp.signal_stack 200 setjmp)
    × ((SetJmp.prepare 200 not_raised setjmp 5 signals).0.action ≡ SetJmp.setup_thunk)
prepare_fails_example =
    Prepare.prepare_fails 200 setjmp 5 signals 0 0 1 (inr (inr (λ e. omega (arith, e))))
