-- ===== src/SetJmp/Threads.antt =====
-- Prepare() and SignalHandlerSetupThunk() of src/arch/setjmp/SetJmp.cpp under several kernel threads,
-- one access to what the threads share at a time. The alternate signal stack belongs to a thread;
-- gSignalLock, gCurrentlyPreparing, the action for SIGUSR1 and the jump buffers to the process.
-- raise() delivers to the thread that calls it.
pub mod Invariant
mod Guard
mod Moves
pub mod Reached
pub mod Safety
pub mod Restored
pub mod Alone
use libcommunism.Base.{
  Error, ℕ, Bool, true, false, Option, none, some, Outcome, ok, throws, ◌≡◌, ◌≢◌,
  sigaltstack_failed, sigaction_failed, raise_failed,
}
use native.Mathlib.Decide.{ℕ_discrete}
use mathlib.Core.Logic.{ite}
use libcommunism.SetJmp.{
  SetJmp, SignalStack, Action, setup_thunk, other_action, EntryContext, Jump, signal_stack,
  set_jump,
}

-- What the threads share; `lock` is the thread that holds gSignalLock.
pub record Shared (E : Type 0) : Type 0 where
  pub lock : Option ℕ
  pub preparing : Option (EntryContext E)
  pub action : Action
  pub jumps : ℕ → Option (Jump E)

-- Where a thread stands in Prepare().
pub data Stage (E : Type 0) : Type 0 where
  idle : Stage E  -- not in Prepare()
  cleared : Stage E  -- the lock is next
  locked : Stage E  -- sigaltstack() is next
  stacked : Stage E  -- the store to gCurrentlyPreparing is next
  published : Stage E  -- sigaction() is next
  armed : Stage E  -- raise() is next
  handling : (ctx : EntryContext E) → Stage E  -- in the handler, in front of sigsetjmp()
  raised : Stage E  -- the restoring sigaltstack() is next
  unstacked : Stage E  -- the restoring sigaction() is next
  restored : Stage E  -- the release of the lock is next
  failing : (e : Error) → Stage E  -- an exception is about to release the lock
  finished : (r : Outcome (Unit {0})) → Stage E

-- A thread: its alternate signal stack, and the arguments and variables of its call of Prepare().
pub record Local (E : Type 0) : Type 0 where
  pub stage : Stage E
  pub alt_stack : SignalStack
  pub thread : SetJmp
  pub entry : E
  pub old_stack : SignalStack
  pub old_action : Action

pub record System (E : Type 0) : Type 0 where
  pub shared : Shared E
  pub threads : ℕ → Local E

abbrev pub update {ℓ} : {A : Type ℓ} → (ℕ → A) → ℕ → A → ℕ → A
update f i a j = ite (ℕ_discrete i j) a (f j)

-- The EntryContext of a call, and the jump that its handler saves.
abbrev pub context : {E : Type 0} → Local E → EntryContext E
context l = record { impl = l.thread.stack.addr; entry = l.entry }

-- One access of thread `i`, in Prepare() behind its memset() or in the handler. System calls fail
-- only where `can_fail` says so.
pub data Move {E : Type 0} (jmp_size : ℕ) (can_fail : Bool) (i : ℕ) (m : Shared E) (l : Local E)
    : Shared E → Local E → Type 0 where
  lock :
      l.stage ≡ cleared
      → m.lock ≡ none
      → Move jmp_size can_fail i m l (record m { lock = some i }) (record l { stage = locked })
  alternate :
      l.stage ≡ locked
      → Move jmp_size can_fail i m l m (record l {
        stage = stacked;
        old_stack = l.alt_stack;
        alt_stack = signal_stack jmp_size l.thread;
      })
  alternate_fails :
      l.stage ≡ locked
      → can_fail ≡ true
      → Move jmp_size can_fail i m l m (record l { stage = failing sigaltstack_failed })
  publish :
      l.stage ≡ stacked
      → Move jmp_size can_fail i m l
          (record m { preparing = some (context l) })
          (record l { stage = published })
  arm :
      l.stage ≡ published
      → Move jmp_size can_fail i m l
          (record m { action = setup_thunk })
          (record l { stage = armed; old_action = m.action })
  arm_fails :
      l.stage ≡ published
      → can_fail ≡ true
      → Move jmp_size can_fail i m l m (record l { stage = failing sigaction_failed })
  deliver :
      {ctx : EntryContext E}
      → l.stage ≡ armed
      → m.action ≡ setup_thunk
      → m.preparing ≡ some ctx
      → Move jmp_size can_fail i m l m (record l { stage = handling ctx })
  deliver_other :
      {n : ℕ}
      → l.stage ≡ armed
      → m.action ≡ other_action n
      → Move jmp_size can_fail i m l m (record l { stage = raised })
  raise_fails :
      l.stage ≡ armed
      → can_fail ≡ true
      → Move jmp_size can_fail i m l m (record l { stage = failing raise_failed })
  save :
      {ctx : EntryContext E}
      → l.stage ≡ handling ctx
      → Move jmp_size can_fail i m l
          (record m {
            jumps =
                set_jump ctx.impl
                  (some (record { entry = ctx.entry; stack = l.alt_stack }))
                  m.jumps;
          })
          (record l { stage = raised })
  alternate_back :
      l.stage ≡ raised
      → Move jmp_size can_fail i m l m (record l { stage = unstacked; alt_stack = l.old_stack })
  disarm :
      l.stage ≡ unstacked
      → Move jmp_size can_fail i m l
          (record m { action = l.old_action })
          (record l { stage = restored })
  unlock :
      l.stage ≡ restored
      → Move jmp_size can_fail i m l
          (record m { lock = none })
          (record l { stage = finished (ok tt) })
  unwind :
      {e : Error}
      → l.stage ≡ failing e
      → Move jmp_size can_fail i m l
          (record m { lock = none })
          (record l { stage = finished (throws e) })

abbrev pub CanMove : {E : Type 0} → ℕ → Bool → ℕ → Shared E → Local E → Type 0
CanMove {E} jmp_size can_fail i m l =
    (n : Shared E) × (k : Local E) × Move jmp_size can_fail i m l n k

-- A thread calls Prepare() for a cothread whose memory no other thread's call has, goes on in the
-- call, or goes on behind it.
pub data Step {E : Type 0} (jmp_size : ℕ) (can_fail : Bool) (s : System E) : System E → Type 0 where
  begin :
      (i : ℕ) (thread : SetJmp) (entry : E)
      → (s.threads i).stage ≡ idle
      → ((j : ℕ) → (s.threads j).stage ≢ idle → (s.threads j).thread.stack.addr ≢ thread.stack.addr)
      → Step jmp_size can_fail s (record {
        shared = record s.shared { jumps = set_jump thread.stack.addr none s.shared.jumps };
        threads =
            update s.threads i
              (record (s.threads i) { stage = cleared; thread = thread; entry = entry });
      })
  move :
      (i : ℕ) {m : Shared E} {l : Local E}
      → Move jmp_size can_fail i s.shared (s.threads i) m l
      → Step jmp_size can_fail s (record { shared = m; threads = update s.threads i l })
  leave :
      (i : ℕ) {r : Outcome (Unit {0})}
      → (s.threads i).stage ≡ finished r
      → Step jmp_size can_fail s
          (record s { threads = update s.threads i (record (s.threads i) { stage = idle }) })

-- Before the first call: the lock is free, and no thread is in Prepare().
pub record IsInitial {E : Type 0} (s : System E) : Type 0 where
  pub free : s.shared.lock ≡ none
  pub outside : (i : ℕ) → (s.threads i).stage ≡ idle

-- The states that any interleaving of the threads reaches from `s`.
pub data Reach {E : Type 0} (jmp_size : ℕ) (can_fail : Bool) (s : System E)
    : System E → Type 0 where
  start : Reach jmp_size can_fail s s
  later :
      {t u : System E}
      → Reach jmp_size can_fail s t
      → Step jmp_size can_fail t u
      → Reach jmp_size can_fail s u
