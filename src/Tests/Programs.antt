-- ===== src/Tests/Programs.antt =====
-- Rows of calls and the programs of src/test over sigsetjmp() and siglongjmp(): a library that keeps one
-- place for each buffer, `main` at 100, `t1` at 200 and
-- `t2` at 300, with buffers at 4096, 8192 and 12288.
use libcommunism.Base.{
  ℕ, ◌≡◌, ◌==◌, if◌then◌else◌, refl, false, Option, none, some, ok, ◌>>=◌, [], ◌∷◌, arith,
}
use libcommunism.Saved.{put}
use libcommunism.Cothread.{Cothread, default_handler}
use libcommunism.Cothread.Processor.{Calls}
use libcommunism.Cothread.Places.{World}
use libcommunism.SetJmp.{SetJmp, Signals, other_action, signal_stack, prepare}
use libcommunism.SetJmp.Switch.{
  Place, in_setup_thunk, in_thunk, in_switch_to, JumpLibrary, IsJumpLibrary, jmp_buf_for, switch_to,
  switch_to-Saves,
}
use libcommunism.SetJmp.Cothreads
use libcommunism.Cothread.{set_return_handler}
use libcommunism.Cothread.Places.{Program, backend}
use libcommunism.Programs.{Spot, entry, behind, run, stopped}
use libcommunism.Programs.Scene.{IsScene}
use libcommunism.Programs.ContextSwitch
use libcommunism.Programs.ReturnHandler
use libcommunism.Programs.Benchmark

-- The calls that a run does not make.
abbrev pub calls : (K P B : Type 0) → Calls (World K P B)
calls K P B = record {
  alloc_kernel_thread_wrapper = λ w. (w, 0);
  new_cothread = λ w. (w, 0);
  delete_impl = λ p w. w;
  destroy_impl = λ p w. w;
  get_stack = λ p w. 0;
  get_stack_size = λ p w. 0;
}

-- Cothread objects with the implementations 1, 2 and 3.
abbrev pub threads : ℕ → Cothread
threads t = record {
  label = [];
  impl = if t == 100 then 1 else (if t == 200 then 2 else 3);
  impl_buffer = 0;
  impl_buffer_used = false;
}

abbrev pub live : ℕ → Option Cothread
live p =
    if p == 100
    then some (threads 100)
    else (if p == 200 then some (threads 200) else (if p == 300 then some (threads 300) else none))

abbrev pub buffer_of : ℕ → ℕ
buffer_of impl = if impl == 1 then 4096 else (if impl == 2 then 8192 else 12288)

abbrev objects : ℕ → SetJmp
objects impl = record { stack = record { addr = buffer_of impl; size = 64 }; owns_stack = false }

abbrev jumps : (K : Type 0) → JumpLibrary (Place ℕ K)
jumps K = record {
  Buffers = ℕ → Option (Place ℕ K);
  sigsetjmp = λ p at b. (put b p at, 0);
  siglongjmp = λ p b. b p;
}

jumps-IsJumpLibrary : (K : Type 0) → IsJumpLibrary (jumps K)
jumps-IsJumpLibrary K = record {
  returns_zero = λ p at b. refl;
  latest = λ p at b. ground arith;
  others = λ p q at b ne. ground arith;
}

-- The jump that leads to the entry point 7 of `t1`.
abbrev thunk : (K : Type 0) → Place ℕ K
thunk K = in_setup_thunk (record { entry = 7; stack = record { ss_sp = 8448; ss_size = 256 } })

abbrev Running : Type 0 → Type 0
Running K = Program ℕ (switch_to (jumps K)) objects (calls K (Place ℕ K) (jumps K).Buffers)

abbrev first : (K : Type 0) → K → Running K
first K k = record {
  current = 100;
  handler = default_handler;
  threads = live;
  world = record { buffers = λ p. some (thunk K); at = k; goes = none };
}

-- `main` to `t1` at 11, `t1` to `t2` at 12, and `t2` to `main` at 13.
switch_to-switch_to_setjmp_example :
    (z : Running ℕ) × ((Cothreads.call ℕ
          (jumps ℕ)
          objects
          (calls ℕ (Place ℕ ℕ) (jumps ℕ).Buffers)
          200
          11
          (first ℕ 0)
        >>= (λ q.
            Cothreads.run_calls ℕ
              (jumps ℕ)
              objects
              (calls ℕ (Place ℕ ℕ) (jumps ℕ).Buffers)
              ((300, 12) ∷ [])
              q
            >>= Cothreads.call ℕ (jumps ℕ) objects (calls ℕ (Place ℕ ℕ) (jumps ℕ).Buffers) 100 13))
      ≡ ok z)
    × (z.current ≡ 100)
    × (z.world.goes ≡ some (in_switch_to 11))
unfolding jmp_buf_for
switch_to-switch_to_setjmp_example =
    Cothreads.switch_to-switch_to_setjmp ℕ (jumps ℕ) objects (calls ℕ (Place ℕ ℕ) (jumps ℕ).Buffers)
      threads (jumps-IsJumpLibrary ℕ) 200 11 13 ((300, 12) ∷ []) (first ℕ 0)
      (λ e. omega (arith, e), refl) (λ e. omega (arith, e), refl)
      ((λ e. omega (arith, e), refl), tt) ((λ e. omega (arith, e)), tt) (λ e. omega (arith, e))
      ((λ e. omega (arith, e)), tt)

-- `t1` has been prepared with the entry point 7, and all buffers are as the handler left them.
abbrev signals : Signals ℕ
signals = record {
  alt_stack = record { ss_sp = 0; ss_size = 0 };
  action = other_action 5;
  preparing = none;
  jumps = λ q. none;
}

abbrev prepared : Signals ℕ
prepared =
    (prepare 200 (record { sigaltstack = 0; sigaction = 0; raise = 0 }) (objects 2) 7 signals).0

abbrev ready : Running ℕ
ready = record (first ℕ 0) {
  world = record { buffers = λ q. in_thunk (prepared.jumps q); at = 0; goes = none };
}

switch_to-prepare_setjmp_example :
    (z : Running ℕ) × (Cothreads.call ℕ
        (jumps ℕ)
        objects
        (calls ℕ (Place ℕ ℕ) (jumps ℕ).Buffers)
        200
        11
        ready
      ≡ ok z)
    × (z.current ≡ 200)
    × (z.world.goes
        ≡ some (in_setup_thunk (record { entry = 7; stack = signal_stack 200 (objects 2) })))
unfolding jmp_buf_for
switch_to-prepare_setjmp_example =
    Cothreads.switch_to-prepare_setjmp ℕ (jumps ℕ) objects (calls ℕ (Place ℕ ℕ) (jumps ℕ).Buffers)
      threads (jumps-IsJumpLibrary ℕ) 200 200 7 signals 11 ready (λ e. omega (arith, e), refl)
      (λ e. omega (arith, e), refl) (λ e. omega (arith, e)) refl

abbrev spot : (K : Type 0) → Place ℕ K → Spot ℕ K
spot K (in_setup_thunk jump) = entry jump.entry
spot K (in_switch_to k) = behind k

scene :
    (K : Type 0) (k : K)
    → IsScene ℕ
        (switch_to (jumps K))
        objects
        (calls K (Place ℕ K) (jumps K).Buffers)
        (spot K)
        threads
        jmp_buf_for
        (jumps K).siglongjmp
        100
        200
        (thunk K)
        (first K k)
unfolding jmp_buf_for
scene K k = record {
  current = refl;
  main_alive = (λ e. omega (arith, e), refl);
  t1_alive = (λ e. omega (arith, e), refl);
  differ = λ e. omega (arith, e);
  leads = refl;
}

run-context_switch_example :
    (z : Running ContextSwitch.Line) × (run
        (switch_to (jumps ContextSwitch.Line))
        objects
        (calls ContextSwitch.Line (Place ℕ ContextSwitch.Line) (jumps ContextSwitch.Line).Buffers)
        (spot ContextSwitch.Line)
        (ContextSwitch.code ℕ ℕ 100 200)
        3
        (in_switch_to ContextSwitch.starts)
        5
        (first ContextSwitch.Line ContextSwitch.starts)
      ≡ ok (stopped 1 z))
    × (z.current ≡ 100)
run-context_switch_example =
    ContextSwitch.run-context_switch ℕ (switch_to (jumps ContextSwitch.Line)) objects
      (calls ContextSwitch.Line (Place ℕ ContextSwitch.Line) (jumps ContextSwitch.Line).Buffers)
      (spot ContextSwitch.Line) threads jmp_buf_for in_switch_to
      (jumps ContextSwitch.Line).siglongjmp
      (switch_to-Saves (jumps ContextSwitch.Line) (jumps-IsJumpLibrary ContextSwitch.Line))
      (λ k. refl) 100 200 (thunk ContextSwitch.Line) 7
      (first ContextSwitch.Line ContextSwitch.starts) 5
      (scene ContextSwitch.Line ContextSwitch.starts) refl

run-return_handler_example :
    (z : Running ReturnHandler.Line) × (run
        (switch_to (jumps ReturnHandler.Line))
        objects
        (calls ReturnHandler.Line (Place ℕ ReturnHandler.Line) (jumps ReturnHandler.Line).Buffers)
        (spot ReturnHandler.Line)
        (ReturnHandler.code ℕ ℕ 100 200)
        3
        (in_switch_to ReturnHandler.starts)
        (record { counter1 = 0; counter2 = 0 })
        (set_return_handler
          (backend (switch_to (jumps ReturnHandler.Line)) objects (
            calls ReturnHandler.Line
              (Place ℕ ReturnHandler.Line)
              (jumps ReturnHandler.Line).Buffers))
          3
          (first ReturnHandler.Line ReturnHandler.starts))
      ≡ ok (stopped (record { counter1 = 69; counter2 = 420 }) z))
    × (z.current ≡ 100)
run-return_handler_example =
    ReturnHandler.run-return_handler ℕ (switch_to (jumps ReturnHandler.Line)) objects
      (calls ReturnHandler.Line (Place ℕ ReturnHandler.Line) (jumps ReturnHandler.Line).Buffers)
      (spot ReturnHandler.Line) threads jmp_buf_for in_switch_to
      (jumps ReturnHandler.Line).siglongjmp
      (switch_to-Saves (jumps ReturnHandler.Line) (jumps-IsJumpLibrary ReturnHandler.Line))
      (λ k. refl) 100 200 (thunk ReturnHandler.Line) 7 3
      (first ReturnHandler.Line ReturnHandler.starts)
      (scene ReturnHandler.Line ReturnHandler.starts) refl

run-benchmark_example :
    (z : Running Benchmark.Line) × (run
        (switch_to (jumps Benchmark.Line))
        objects
        (calls Benchmark.Line (Place ℕ Benchmark.Line) (jumps Benchmark.Line).Buffers)
        (spot Benchmark.Line)
        (Benchmark.code ℕ ℕ 100 200)
        7
        (in_switch_to Benchmark.starts)
        (record { left = 3; measured = 0; rounds = 0 })
        (first Benchmark.Line Benchmark.starts)
      ≡ ok (stopped (record { left = 0; measured = 3; rounds = 3 }) z))
    × (z.current ≡ 100)
run-benchmark_example =
    Benchmark.run-benchmark ℕ (switch_to (jumps Benchmark.Line)) objects
      (calls Benchmark.Line (Place ℕ Benchmark.Line) (jumps Benchmark.Line).Buffers)
      (spot Benchmark.Line) threads jmp_buf_for in_switch_to (jumps Benchmark.Line).siglongjmp
      (switch_to-Saves (jumps Benchmark.Line) (jumps-IsJumpLibrary Benchmark.Line)) (λ k. refl) 100
      200 3 (thunk Benchmark.Line) 7 (first Benchmark.Line Benchmark.starts)
      (scene Benchmark.Line Benchmark.starts) refl
