-- ===== src/SetJmp/Threads/Restored.antt =====
-- What the process has back of its signal state when the calls of Prepare() of
-- src/arch/setjmp/SetJmp.cpp are over, where no system call fails.
use libcommunism.Base.{ℕ, Bool, true, false, none, some, ◌≡◌, ◌≢◌, refl, arith, Error, Outcome, ok}
use libcommunism.SetJmp.{signal_stack}
use libcommunism.SetJmp.Threads.{
  Shared, Stage, Local, System, Move, Step, IsInitial, update, stacked, published, armed, handling,
  raised, unstacked, failing, finished, begin, move, leave, lock, unwind, Reach, start, later,
}
use libcommunism.SetJmp.Threads.Invariant.{Inv, holds}
use libcommunism.SetJmp.Threads.Guard.{guard}
use libcommunism.SetJmp.Threads.Safety.{finished_lem}
use libcommunism.SetJmp.Threads.Reached.{Reach-Inv}

module _ {E : Type 0} where
  -- The thread has installed the library's handler, and not yet restored the former.
  unfoldable installs : Stage E → Bool
  installs armed = true
  installs (handling _) = true
  installs raised = true
  installs unstacked = true
  installs _ = false

  -- The thread has set the cothread's stack, and not yet restored its own.
  unfoldable diverts : Stage E → Bool
  diverts stacked = true
  diverts published = true
  diverts armed = true
  diverts (handling _) = true
  diverts raised = true
  diverts _ = false

  record IsKept (s t : System E) : Type 0 where
    free : t.shared.lock ≡ none → t.shared.action ≡ s.shared.action
    held :
        (i : ℕ)
        → holds (t.threads i).stage ≡ true
        → installs (t.threads i).stage ≡ false
        → t.shared.action ≡ s.shared.action
    old_action :
        (i : ℕ) → installs (t.threads i).stage ≡ true → (t.threads i).old_action ≡ s.shared.action
    alt_stack :
        (i : ℕ)
        → diverts (t.threads i).stage ≡ false
        → (t.threads i).alt_stack ≡ (s.threads i).alt_stack
    old_stack :
        (i : ℕ)
        → diverts (t.threads i).stage ≡ true
        → (t.threads i).old_stack ≡ (s.threads i).alt_stack
    fails_not : (i : ℕ) (e : Error) → (t.threads i).stage ≢ failing e
    returns : (i : ℕ) (r : Outcome (Unit {0})) → (t.threads i).stage ≡ finished r → r ≡ ok tt

  module _ {jmp_size : ℕ} {s t : System E} (inv : Inv jmp_size t) (kept : IsKept s t) (i : ℕ) where
    Move-free :
        {k : Local E} {m : Shared E} {l : Local E}
        → Move jmp_size false i t.shared k m l
        → t.threads i ≡ k
        → m.lock ≡ none
        → m.action ≡ s.shared.action
    unfolding holds installs diverts
    Move-free (lock e f) here q = ground (arith, e, f, kept.free, kept.held i, inv.owner i)
    Move-free mv here q = ground (arith, guard mv, kept.free, kept.held i, inv.owner i)

    Move-held :
        {k : Local E} {m : Shared E} {l : Local E}
        → Move jmp_size false i t.shared k m l
        → t.threads i ≡ k
        → (j : ℕ) → holds (update t.threads i l j).stage ≡ true
        → installs (update t.threads i l j).stage ≡ false
        → m.action ≡ s.shared.action
    unfolding holds installs diverts
    Move-held (lock e f) here j p q = ground (
      arith,
      e,
      f,
      kept.free,
      kept.held j,
      kept.held i,
      kept.old_action i,
      inv.owner i,
      inv.owner j,
    )
    Move-held mv here j p q = ground (
      arith,
      guard mv,
      kept.free,
      kept.held j,
      kept.held i,
      kept.old_action i,
      inv.owner i,
      inv.owner j,
    )

    Move-old_action :
        {k : Local E} {m : Shared E} {l : Local E}
        → Move jmp_size false i t.shared k m l
        → t.threads i ≡ k
        → (j : ℕ) → installs (update t.threads i l j).stage ≡ true
        → (update t.threads i l j).old_action ≡ s.shared.action
    unfolding holds installs diverts
    Move-old_action (lock e f) here j q = ground (arith, e, f, kept.old_action j, kept.held j)
    Move-old_action mv here j q = ground (arith, guard mv, kept.old_action j, kept.held j)

    Move-alt_stack :
        {k : Local E} {m : Shared E} {l : Local E}
        → Move jmp_size false i t.shared k m l
        → t.threads i ≡ k
        → (j : ℕ) → diverts (update t.threads i l j).stage ≡ false
        → (update t.threads i l j).alt_stack ≡ (s.threads j).alt_stack
    unfolding holds installs diverts
    Move-alt_stack (lock e f) here j q = ground (arith, e, f, kept.alt_stack j, kept.old_stack j)
    Move-alt_stack mv here j q = ground (arith, guard mv, kept.alt_stack j, kept.old_stack j)

    Move-old_stack :
        {k : Local E} {m : Shared E} {l : Local E}
        → Move jmp_size false i t.shared k m l
        → t.threads i ≡ k
        → (j : ℕ) → diverts (update t.threads i l j).stage ≡ true
        → (update t.threads i l j).old_stack ≡ (s.threads j).alt_stack
    unfolding holds installs diverts
    Move-old_stack (lock e f) here j q = ground (arith, e, f, kept.alt_stack j, kept.old_stack j)
    Move-old_stack mv here j q = ground (arith, guard mv, kept.alt_stack j, kept.old_stack j)

    Move-fails_not :
        {k : Local E} {m : Shared E} {l : Local E}
        → Move jmp_size false i t.shared k m l
        → t.threads i ≡ k
        → (j : ℕ) (e : Error) → (update t.threads i l j).stage ≢ failing e
    unfolding holds installs diverts
    Move-fails_not (lock e f) here j x q = ground (arith, e, f, kept.fails_not j x)
    Move-fails_not mv here j x q = ground (arith, guard mv, kept.fails_not j x)

    Move-returns :
        {k : Local E} {m : Shared E} {l : Local E}
        → Move jmp_size false i t.shared k m l
        → t.threads i ≡ k
        → (j : ℕ) (r : Outcome (Unit {0})) → (update t.threads i l j).stage ≡ finished r
        → r ≡ ok tt
    Move-returns (unwind {e} f) here j r q = absurd (kept.fails_not i e cc)
    Move-returns (lock e f) here j r q = ground (arith, e, f, kept.returns j r)
    Move-returns mv here j r q = ground (arith, guard mv, kept.returns j r)

    Move-IsKept :
        {m : Shared E} {l : Local E}
        → Move jmp_size false i t.shared (t.threads i) m l
        → IsKept s (record { shared = m; threads = update t.threads i l })
    Move-IsKept mv = record {
      free = Move-free mv refl;
      held = Move-held mv refl;
      old_action = Move-old_action mv refl;
      alt_stack = Move-alt_stack mv refl;
      old_stack = Move-old_stack mv refl;
      fails_not = Move-fails_not mv refl;
      returns = Move-returns mv refl;
    }

  IsInitial-IsKept : {s : System E} → IsInitial s → IsKept s s
  unfolding installs diverts holds
  IsInitial-IsKept init = record {
    free = λ q. refl;
    held = λ i p q. refl;
    old_action = λ i q. ground (arith, init.outside i);
    alt_stack = λ i q. refl;
    old_stack = λ i q. ground (arith, init.outside i);
    fails_not = λ i e q. ground (arith, init.outside i);
    returns = λ i r q. ground (arith, init.outside i);
  }

  Step-IsKept :
      {jmp_size : ℕ} {s t u : System E}
      → Inv jmp_size t
      → IsKept s t
      → Step jmp_size false t u
      → IsKept s u
  unfolding installs diverts holds
  Step-IsKept inv kept (begin i thread entry e distinct) = record {
    free = kept.free;
    held = λ j p q. ground (arith, kept.held j);
    old_action = λ j q. ground (arith, kept.old_action j);
    alt_stack = λ j q. ground (arith, kept.alt_stack j);
    old_stack = λ j q. ground (arith, kept.old_stack j);
    fails_not = λ j x q. ground (arith, kept.fails_not j x);
    returns = λ j r q. ground (arith, kept.returns j r);
  }
  Step-IsKept inv kept (move i mv) = Move-IsKept inv kept i mv
  Step-IsKept inv kept (leave i e) = record {
    free = kept.free;
    held = λ j p q. ground (arith, kept.held j);
    old_action = λ j q. ground (arith, kept.old_action j);
    alt_stack = λ j q. ground (arith, kept.alt_stack j);
    old_stack = λ j q. ground (arith, kept.old_stack j);
    fails_not = λ j x q. ground (arith, kept.fails_not j x);
    returns = λ j r q. ground (arith, kept.returns j r);
  }

  Reach-IsKept :
      {jmp_size : ℕ} {s t : System E} → IsInitial s → Reach jmp_size false s t → IsKept s t
  Reach-IsKept init start = IsInitial-IsKept init
  Reach-IsKept init (later r st) = Step-IsKept (Reach-Inv init r) (Reach-IsKept init r) st

  -- Where no system call fails, whatever the interleaving: when a thread's call of Prepare() has ended
  -- and no thread holds the lock, that call has returned, the thread has the alternate signal stack
  -- that it had at first, the action for SIGUSR1 is the one that the process had at first, and the
  -- buffer of the cothread that the call was for holds the jump to its entry point.
  pub restores :
      {jmp_size : ℕ} {s t : System E}
      → IsInitial s
      → Reach jmp_size false s t
      → (i : ℕ) (r : Outcome (Unit {0})) → (t.threads i).stage ≡ finished r
      → t.shared.lock ≡ none
      → (r ≡ ok tt)
        × ((t.threads i).alt_stack ≡ (s.threads i).alt_stack)
        × (t.shared.action ≡ s.shared.action)
        × (t.shared.jumps (t.threads i).thread.stack.addr
            ≡ some (record {
              entry = (t.threads i).entry;
              stack = signal_stack jmp_size (t.threads i).thread;
            }))
  unfolding diverts
  restores init run i r e free =
      let kept = Reach-IsKept init run in
      let done = kept.returns i r e in
      (
        done,
        kept.alt_stack i (ground arith),
        kept.free free,
        finished_lem init run i (ground arith),
      )
