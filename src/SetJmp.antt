-- ===== src/SetJmp.antt =====
-- src/arch/setjmp: the class SetJmp, which prepares a cothread inside a signal handler that runs on
-- the cothread's stack. `jmp_size` is sizeof(sigjmp_buf), which the C library fixes.
pub mod Prepare
pub mod Life
pub mod Returned
pub mod Switch
pub mod Threads
pub mod Cothreads
use libcommunism.Base.{
  ℕ, ◌+◌, ◌-◌, ◌*◌, ◌%◌, Bool, true, false, Option, none, some, Outcome, ok, throws, terminated,
  undefined, ◌>>=◌, sigaltstack_failed, posix_memalign_failed, failed_to_allocate_context,
  failed_to_allocate_stack, ◌/◌, sigaction_failed, raise_failed, arith, ◌==◌, not, if◌then◌else◌,
}
use libcommunism.Span.{Span, clear_low}
use libcommunism.Impl.{word64}
use libcommunism.Heap.{Allocator}
use libcommunism.Machine.{add_word, sub_word}

abbrev pub k_stack_alignment : ℕ
k_stack_alignment = 64

abbrev pub k_main_stack_size : ℕ
k_main_stack_size = 512

-- sizeof(uintptr_t) * 0x10000
abbrev pub k_default_stack_size : ℕ
k_default_stack_size = 8 * 0x10000

pub record SetJmp : Type 0 where
  pub stack : Span
  pub owns_stack : Bool

-- if(n % kStackAlignment) { n += kStackAlignment - (n % kStackAlignment); }
unfoldable pub round_up : ℕ → ℕ
round_up n =
    if n % k_stack_alignment == 0
    then n
    else (n + (k_stack_alignment - n % k_stack_alignment)) % word64.modulus

unfoldable pub alloc_size : (jmp_size stack_size : ℕ) → ℕ
unfolding round_up
alloc_size jmp_size stack_size =
    let rounded = clear_low stack_size 6 in
    round_up
      (((if rounded == 0 then k_default_stack_size else rounded) + jmp_size) % word64.modulus)

-- A stack_t.
pub record SignalStack : Type 0 where
  pub ss_sp : ℕ
  pub ss_size : ℕ

-- The action for SIGUSR1: SignalHandlerSetupThunk, or another.
pub data Action : Type 0 where
  setup_thunk : Action
  other_action : ℕ → Action

-- An EntryContext; `impl` is the address of the cothread's jump buffer, the start of its stack.
pub record EntryContext (E : Type 0) : Type 0 where
  pub impl : ℕ
  pub entry : E

-- A sigjmp_buf that sigsetjmp() has filled: a jump to it runs the entry point on the stack.
pub record Jump (E : Type 0) : Type 0 where
  pub entry : E
  pub stack : SignalStack

-- The signal state of the thread, the jump buffers by their addresses, and the statics of SetJmp.
pub record Signals (E : Type 0) : Type 0 where
  pub alt_stack : SignalStack
  pub action : Action
  pub preparing : Option (EntryContext E)
  pub jumps : ℕ → Option (Jump E)

-- The results of the three system calls.
pub record Results : Type 0 where
  pub sigaltstack : ℕ
  pub sigaction : ℕ
  pub raise : ℕ

-- The stack that Prepare() installs: the cothread's, above the jump buffer.
unfoldable pub signal_stack : (jmp_size : ℕ) → SetJmp → SignalStack
unfolding round_up
signal_stack jmp_size thread =
    let offset = round_up jmp_size in
    record {
      ss_sp = add_word word64 thread.stack.addr offset;
      ss_size = sub_word word64 (thread.stack.size * word64.bytes % word64.modulus) offset;
    }

module _ {E : Type 0} where
  unfoldable pub set_jump : ℕ → Option (Jump E) → (ℕ → Option (Jump E)) → ℕ → Option (Jump E)
  set_jump p j jumps q = if p == q then j else jumps q

  -- SignalHandlerSetupThunk(), on the way on which sigsetjmp() returns 0.
  unfoldable pub signal_handler_setup_thunk : Signals E → Signals E
  unfolding set_jump
  signal_handler_setup_thunk s = elim s.preparing [
    | none ↦ s
    | some ctx ↦
        let jump : Jump E = record { entry = ctx.entry; stack = s.alt_stack } in
        record s { jumps = set_jump ctx.impl (some jump) s.jumps }
  ]

  -- What raise(SIGUSR1) runs, on the alternate stack.
  deliver : Signals E → Signals E
  unfolding signal_handler_setup_thunk
  deliver s = elim s.action [ setup_thunk ↦ signal_handler_setup_thunk s | other_action n ↦ s ]

  -- Prepare() behind `new EntryContext`: the signal state that it leaves, and how it ends.
  unfoldable pub prepare :
      (jmp_size : ℕ) → Results → SetJmp → E → Signals E → Signals E × Outcome (Unit {0})
  unfolding deliver set_jump
  prepare jmp_size results thread entry s =
      let cleared = record s { jumps = set_jump thread.stack.addr none s.jumps } in
      if not (results.sigaltstack == 0)
      then (cleared, throws sigaltstack_failed)
      else (let stacked = record cleared {
        alt_stack = signal_stack jmp_size thread;
        preparing = some (record { impl = thread.stack.addr; entry = entry });
      } in
          if not (results.sigaction == 0)
          then (stacked, throws sigaction_failed)
          else (let handled = record stacked { action = setup_thunk } in
              if not (results.raise == 0)
              then (handled, throws raise_failed)
              else (let done = deliver handled in
                  (record done { alt_stack = s.alt_stack; action = s.action }, ok tt))))

-- The allocator's objects and the signal state.
pub record Process {E : Type 0} (a : Allocator E) : Type 0 where
  pub heap : a.Heap
  pub signals : Signals E

-- Prepare() with its EntryContext: `prepare` is the rest of it. What is caught deletes the EntryContext.
unfoldable pub prepare_with_context :
    {E : Type 0} (a : Allocator E) (jmp_size : ℕ)
    → Results
    → SetJmp
    → E
    → Process a
    → Process a × Outcome (Unit {0})
unfolding set_jump
prepare_with_context a jmp_size results thread entry p =
    let s = p.signals in
    let (heap, info) = a.new_info entry p.heap in
    if info == 0
    then (
      record {
        heap = heap;
        signals = record s { jumps = set_jump thread.stack.addr none s.jumps };
      },
      throws failed_to_allocate_context,
    )
    else (let (t, r) = prepare jmp_size results thread entry s in
        elim r [
          | ok u ↦ (record { heap = heap; signals = t }, ok u)
          | throws e ↦ (record { heap = a.delete_info info heap; signals = t }, throws e)
          | terminated ↦ (record { heap = heap; signals = t }, terminated)
          | undefined ↦ (record { heap = heap; signals = t }, undefined)
        ])

-- A constructor's end: Prepare() returns, and the object is there, or it throws.
abbrev finish :
    {E : Type 0} {a : Allocator E}
    → SetJmp
    → Process a × Outcome (Unit {0})
    → Process a × Outcome SetJmp
finish t (p, r) = (p, r >>= λ _. ok t)

-- SetJmp::SetJmp() and ~SetJmp(), with posix_memalign() as on all but Windows: the process that they
-- leave, and how they end.
module _ {E : Type 0} (a : Allocator E) (jmp_size : ℕ) (results : Results) where
  unfoldable pub construct_sized : E → (stack_size : ℕ) → Process a → Process a × Outcome SetJmp
  construct_sized entry stack_size p =
      let size = alloc_size jmp_size stack_size in
      let (heap, err, buf) = a.posix_memalign k_stack_alignment size p.heap in
      if not (err == 0)
      then (record p { heap = heap }, throws posix_memalign_failed)
      else (if buf == 0
          then (record p { heap = heap }, throws failed_to_allocate_stack)
          else (let t : SetJmp = record {
            stack = record { addr = buf; size = size / word64.bytes };
            owns_stack = true;
          } in
              finish t
                (prepare_with_context a jmp_size results t entry (record p { heap = heap }))))

  unfoldable pub construct_span : E → Span → Process a → Process a × Outcome SetJmp
  construct_span entry stack p =
      let t : SetJmp = record { stack = stack; owns_stack = false } in
      finish t (prepare_with_context a jmp_size results t entry p)

module _ {E : Type 0} (a : Allocator E) where
  unfoldable pub destroy : SetJmp → Process a → Process a
  destroy t p = if t.owns_stack then record p { heap = a.free t.stack.addr p.heap } else p

-- new SetJmp(SetJmp::gMainStack), with the thread's buffer at `main_stack`.
unfoldable pub alloc_kernel_thread_wrapper : (main_stack : ℕ) → SetJmp
alloc_kernel_thread_wrapper main_stack = record {
  stack = record { addr = main_stack; size = k_main_stack_size };
  owns_stack = false;
}
