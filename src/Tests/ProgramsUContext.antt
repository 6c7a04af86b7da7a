-- ===== src/Tests/ProgramsUContext.antt =====
-- A row of calls over swapcontext(): a library that keeps one place for each context, with those of the
-- three cothreads at 4096, 8192 and 12288.
use libcommunism.Base.{ℕ, ◌≡◌, refl, false, Option, none, some, ok, ◌>>=◌, [], ◌∷◌, arith}
use libcommunism.Saved.{put}
use libcommunism.Cothread.{default_handler}
use libcommunism.Cothread.Processor.{Calls}
use libcommunism.Cothread.Places.{World}
use libcommunism.UContext.{UContext}
use libcommunism.UContext.Switch.{
  Place, in_entry_stub, in_switch_to, ContextLibrary, IsContextLibrary, swapped, context_for,
}
use libcommunism.UContext.Cothreads.{Program, call, run_calls, switch_to-switch_to_ucontext}
use libcommunism.Tests.Programs.{calls, threads, live, buffer_of}

abbrev objects : ℕ → UContext
objects impl = record { stack = record { addr = buffer_of impl; size = 128 }; owns_stack = false }

abbrev contexts : ContextLibrary (Place ℕ)
contexts = record {
  Contexts = ℕ → Option (Place ℕ);
  swapcontext = λ oucp ucp at c. (put c oucp at, swapped (put c oucp at ucp));
  context = λ p c. c p;
}

contexts-IsContextLibrary : IsContextLibrary contexts
contexts-IsContextLibrary = record {
  saves = λ p q at c. ground arith;
  others = λ p q r at c ne. ground arith;
  succeeds = λ p q at c. refl;
}

abbrev others : Calls (World ℕ (Place ℕ) contexts.Contexts)
others = calls ℕ (Place ℕ) contexts.Contexts

abbrev first : Program ℕ contexts objects others
first = record {
  current = 100;
  handler = default_handler;
  threads = live;
  world = record {
    buffers = λ p. some (in_entry_stub (record { ss_sp = 9152; ss_size = 64; id = 1 }));
    at = 0;
    goes = none;
  };
}

switch_to-switch_to_ucontext_example :
    (z : Program ℕ contexts objects others) × ((call ℕ contexts objects others 200 11 first
        >>= (λ q.
            run_calls ℕ contexts objects others ((300, 12) ∷ []) q
            >>= call ℕ contexts objects others 100 13))
      ≡ ok z)
    × (z.current ≡ 100)
    × (z.world.goes ≡ some (in_switch_to 11))
unfolding context_for
switch_to-switch_to_ucontext_example =
    switch_to-switch_to_ucontext ℕ contexts objects others threads contexts-IsContextLibrary 200 11
      13 ((300, 12) ∷ []) first (λ e. omega (arith, e), refl) (λ e. omega (arith, e), refl)
      ((λ e. omega (arith, e), refl), tt) ((λ e. omega (arith, e)), tt) (λ e. omega (arith, e))
      ((λ e. omega (arith, e)), tt)
