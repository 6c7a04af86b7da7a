-- ===== src/SetJmp/Threads/Safety.antt =====
-- What threads in Prepare() of src/arch/setjmp/SetJmp.cpp may rely on, whatever the interleaving.
use libcommunism.Base.{ℕ, Bool, true, Option, some, none, ok, ◌≡◌, ◌⊎◌, inl, inr, refl, arith}
use libcommunism.SetJmp.{signal_stack, EntryContext, setup_thunk}
use libcommunism.SetJmp.Threads.{
  System, Shared, Local, CanMove, Stage, locked, stacked, published, armed, raised, unstacked,
  restored, failing, lock, alternate, publish, arm, deliver, save, alternate_back, disarm, unlock,
  unwind, Reach, IsInitial, context, handling, finished,
}
use libcommunism.SetJmp.Threads.Invariant.{Inv, holds, calls, saves, publishes, alternates}
use libcommunism.SetJmp.Threads.Reached.{Reach-Inv}

Option-cases : {A : Type 0} (o : Option A) → (o ≡ none) ⊎ ((a : A) × (o ≡ some a))
Option-cases none = inl refl
Option-cases (some a) = inr (a, refl)

module _ {E : Type 0} {jmp_size : ℕ} {can_fail : Bool} (i : ℕ) (m : Shared E) (l : Local E) where
  -- A thread between the lock and the release can take a step.
  can_move :
      (g : Stage E)
      → l.stage ≡ g
      → holds g ≡ true
      → (l.stage ≡ armed → (m.action ≡ setup_thunk) × (m.preparing ≡ some (context l)))
      → CanMove jmp_size can_fail i m l
  unfolding holds
  can_move locked e h f = (_, _, alternate e)
  can_move stacked e h f = (_, _, publish e)
  can_move published e h f = (_, _, arm e)
  can_move armed e h f = (_, _, deliver e (f e).0 (f e).1)
  can_move (handling ctx) e h f = (_, _, save e)
  can_move raised e h f = (_, _, alternate_back e)
  can_move unstacked e h f = (_, _, disarm e)
  can_move restored e h f = (_, _, unlock e)
  can_move (failing x) e h f = (_, _, unwind e)
  can_move _ e h f = absurd cc

module _ {E : Type 0} {jmp_size : ℕ} {can_fail : Bool} {s t : System E} (init : IsInitial s)
    (run : Reach jmp_size can_fail s t) where
  abbrev inv : Inv jmp_size t
  inv = Reach-Inv init run

  -- Two kernel threads are never between the lock of Prepare() and its release at once.
  pub mutual_exclusion :
      (i j : ℕ) → holds (t.threads i).stage ≡ true → holds (t.threads j).stage ≡ true → i ≡ j
  mutual_exclusion i j p q = ground (arith, inv.owner i p, inv.owner j q)

  -- However the threads' calls of Prepare() interleave, and whichever system calls fail: the handler
  -- that a thread runs has read the EntryContext of that thread's own call from the static
  -- gCurrentlyPreparing, and runs on the stack of the cothread that this call prepares.
  pub handles_own :
      (i : ℕ) (ctx : EntryContext E)
      → (t.threads i).stage ≡ handling ctx
      → (ctx ≡ context (t.threads i))
        × ((t.threads i).alt_stack ≡ signal_stack jmp_size (t.threads i).thread)
  unfolding alternates
  handles_own i ctx e = (inv.loaded i ctx e, inv.alternate i (ground arith))

  -- Where a thread's Prepare() has returned, other threads' calls and failures notwithstanding, the
  -- buffer of the cothread that it was for holds a jump that runs the entry point which this call was
  -- given on the part of that cothread's memory above the buffer.
  pub finished_lem :
      (i : ℕ)
      → (t.threads i).stage ≡ finished (ok tt)
      → t.shared.jumps (t.threads i).thread.stack.addr
        ≡ some (record {
          entry = (t.threads i).entry;
          stack = signal_stack jmp_size (t.threads i).thread;
        })
  unfolding saves
  finished_lem i e = inv.filled i (ground arith)

  -- No deadlock: while a thread's call of Prepare() is under way, that thread or the one that holds
  -- the lock can take a step.
  pub can_go_on :
      (i : ℕ)
      → calls (t.threads i).stage ≡ true
      → (j : ℕ) × ((j ≡ i) ⊎ (t.shared.lock ≡ some j))
        × CanMove jmp_size can_fail j t.shared (t.threads j)
  unfolding calls holds publishes
  can_go_on i p = elim (Option-cases t.shared.lock) [
    | inl free ↦ (i, inl refl, (_, _, lock (ground (arith, inv.owner i)) free))
    | inr (j, held) ↦ (
      j,
      inr held,
      can_move j t.shared (t.threads j) (t.threads j).stage refl (inv.owned j held)
          (λ e. (inv.action j e, inv.preparing j (ground arith))),
    )
  ]
