-- ===== src/SetJmp/Threads/Invariant.antt =====
-- What holds in every state that threads in Prepare() of src/arch/setjmp/SetJmp.cpp reach.
use libcommunism.Base.{ℕ, Bool, true, false, some, ok, ◌≡◌, ◌≢◌, arith}
use libcommunism.SetJmp.{EntryContext, setup_thunk, signal_stack}
use libcommunism.SetJmp.Threads.{
  Stage, System, IsInitial, context, idle, cleared, stacked, published, armed, handling, raised,
  unstacked, restored, finished,
}

module _ {E : Type 0} where
  -- The thread is between the lock and the release.
  unfoldable pub holds : Stage E → Bool
  holds idle = false
  holds cleared = false
  holds (finished _) = false
  holds _ = true

  -- The thread's call of Prepare() is under way.
  unfoldable pub calls : Stage E → Bool
  unfolding holds
  calls cleared = true
  calls g = holds g

  -- gCurrentlyPreparing is the thread's.
  unfoldable pub publishes : Stage E → Bool
  publishes published = true
  publishes armed = true
  publishes (handling _) = true
  publishes _ = false

  -- The thread takes signals on the cothread's stack.
  unfoldable pub alternates : Stage E → Bool
  alternates stacked = true
  alternates published = true
  alternates armed = true
  alternates (handling _) = true
  alternates _ = false

  -- The jump buffer is filled.
  unfoldable pub saves : Stage E → Bool
  saves raised = true
  saves unstacked = true
  saves restored = true
  saves (finished (ok _)) = true
  saves _ = false

  pub record Inv (jmp_size : ℕ) (s : System E) : Type 0 where
    pub owner : (i : ℕ) → holds (s.threads i).stage ≡ true → s.shared.lock ≡ some i
    pub owned : (i : ℕ) → s.shared.lock ≡ some i → holds (s.threads i).stage ≡ true
    pub preparing :
        (i : ℕ)
        → publishes (s.threads i).stage ≡ true
        → s.shared.preparing ≡ some (context (s.threads i))
    pub alternate :
        (i : ℕ)
        → alternates (s.threads i).stage ≡ true
        → (s.threads i).alt_stack ≡ signal_stack jmp_size (s.threads i).thread
    pub action : (i : ℕ) → (s.threads i).stage ≡ armed → s.shared.action ≡ setup_thunk
    pub loaded :
        (i : ℕ) (ctx : EntryContext E)
        → (s.threads i).stage ≡ handling ctx
        → ctx ≡ context (s.threads i)
    pub filled :
        (i : ℕ)
        → saves (s.threads i).stage ≡ true
        → s.shared.jumps (s.threads i).thread.stack.addr
          ≡ some (record {
            entry = (s.threads i).entry;
            stack = signal_stack jmp_size (s.threads i).thread;
          })
    pub apart :
        (i j : ℕ)
        → (s.threads i).stage ≢ idle
        → (s.threads j).stage ≢ idle
        → (s.threads i).thread.stack.addr ≡ (s.threads j).thread.stack.addr
        → i ≡ j

  pub IsInitial-Inv : {jmp_size : ℕ} {s : System E} → IsInitial s → Inv jmp_size s
  unfolding holds publishes alternates saves
  IsInitial-Inv {s} init = record {
    owner = λ i q. ground (arith, init.outside i);
    owned = λ i q. ground (arith, init.free);
    preparing = λ i q. ground (arith, init.outside i);
    alternate = λ i q. ground (arith, init.outside i);
    action = λ i q. ground (arith, init.outside i);
    loaded = λ i ctx q. ground (arith, init.outside i);
    filled = λ i q. ground (arith, init.outside i);
    apart = λ i j p q e. absurd (p (init.outside i));
  }
