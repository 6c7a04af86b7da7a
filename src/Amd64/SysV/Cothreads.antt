-- ===== src/Amd64/SysV/Cothreads.antt =====
-- Cothreads of src/Cothread.cpp that switch by the code of src/arch/amd64/SysV.S.
use mathlib.Core.List.{reverse_aux}
use libcommunism.Base.{ℕ, ◌+◌, ◌≤◌, ◌<◌, ◌≡◌, ◌≢◌, refl, ok, [], arith, map}
use libcommunism.Impl.{word64}
use libcommunism.Machine.{State}
use libcommunism.Machine.Switch.{IsRunning, call_switch}
use libcommunism.Machine.Threads.{Layout, IsLayout, View}
use libcommunism.Amd64.Object.{cothread_off_context_top}
use libcommunism.Amd64.SysV.{Reg, rdi, rsi, Reg-discrete, saved, switch_code, switch_to}
use libcommunism.Amd64.SysV.Entry.{switch_code-Switched}
use libcommunism.Cothread.{Backend, Runtime}
use libcommunism.Cothread
use libcommunism.Cothread.Processor.{Calls, processor, IsConsistent, RunsWithout}
use libcommunism.Cothread.Processor.Resume

module _ (H : Type 0) (entry next : ℕ) (calls : Calls (State Reg)) (l : Layout) (at : ℕ → ℕ) where
  -- Cothread objects over this backend, at the addresses `at` 0, `at` 1, ...
  abbrev pub Program : Type 0
  Program = Runtime H (processor (switch_to entry next) calls)

  abbrev pub Good : View → Program → Type 0
  Good v r = IsConsistent word64 cothread_off_context_top saved l at v r.world r

  abbrev pub Runs : ℕ → ℕ → Program → ℕ → Program → Type 0
  Runs = RunsWithout word64 cothread_off_context_top saved (switch_to entry next) calls l at

  calls_code :
      (this other : ℕ) (s : State Reg)
      → switch_to entry next this other s
        ≡ call_switch Reg-discrete word64 rdi rsi switch_code entry next this other s
  unfolding switch_to
  calls_code this other s = refl

  -- On disjoint stacks, where gCurrent is the cothread on whose stack the processor works and every
  -- other waits: after a call of Cothread::switchTo() for another and a run without a call for
  -- the caller, with room for Switch() on the stacks, a call for the caller does not fail; gCurrent
  -- is as before the first call, and the processor goes on behind it, with the stack pointer and the
  -- callee-saved registers of the first call.
  pub switch_to-switch_to_sysv :
      (v : View) (j : ℕ) {m : ℕ} (r q u : Program)
      → IsLayout word64 cothread_off_context_top l
      → Good v r
      → j < l.count
      → j ≢ v.current
      → l.lo v.current + 56 ≤ r.world.sp
      → Cothread.switch_to (processor (switch_to entry next) calls) (at j) r ≡ ok q
      → Runs v.current j q m u
      → l.lo m + 56 ≤ u.world.sp
      → (z : Program) × (Cothread.switch_to
            (processor (switch_to entry next) calls)
            (at v.current)
            u
          ≡ ok z)
        × (z.current ≡ r.current)
        × IsRunning saved
            (record { words = reverse_aux (map r.world.regs saved) []; ip = next; sp = r.world.sp })
            z.world
  switch_to-switch_to_sysv v j r q u valid =
      Resume.switch_to-switch_to H Reg-discrete word64 (omega arith) cothread_off_context_top saved
        rdi rsi (grind arith) switch_code switch_code-Switched entry next (switch_to entry next)
        calls_code calls l valid at (grind arith) (grind arith) v j r q u
