-- ===== src/SetJmp/Cothreads.antt =====
-- Cothreads of src/Cothread.cpp that switch by src/arch/setjmp/SetJmp.cpp.
use libcommunism.Base.{refl, ℕ, ◌≡◌, ◌≢◌, some, Outcome, ok, ◌>>=◌, List}
use libcommunism.Saved.{Avoids}
use libcommunism.SetJmp.{SetJmp, Signals, signal_stack, prepare}
use libcommunism.SetJmp.Switch.{
  Place, in_switch_to, in_setup_thunk, in_thunk, switch_to-prepare, JumpLibrary, IsJumpLibrary,
  jmp_buf_for, switch_to, switch_to-Saves,
}
use libcommunism.Cothread.{Cothread}
use libcommunism.Cothread.Processor.{Calls}
use libcommunism.Cothread.Places

module _ {E K : Type 0} (H : Type 0) (lib : JumpLibrary (Place E K)) (objects : ℕ → SetJmp)
    (calls : Calls (Places.World K (Place E K) lib.Buffers)) where
  abbrev pub Program : Type 0
  Program = Places.Program H (switch_to lib) objects calls

  abbrev pub call : ℕ → K → Program → Outcome Program
  call = Places.call H (switch_to lib) objects calls

  abbrev pub run_calls : List (ℕ × K) → Program → Outcome Program
  run_calls = Places.run_calls H (switch_to lib) objects calls

  module _ (threads : ℕ → Cothread) where
    abbrev pub Alive : Program → ℕ → Type 0
    Alive = Places.Alive H (switch_to lib) objects calls threads

    abbrev pub AllAlive : Program → List ℕ → Type 0
    AllAlive = Places.AllAlive H (switch_to lib) objects calls threads

    abbrev pub object : ℕ → SetJmp
    object = Places.object objects threads

    -- Over sigsetjmp() and siglongjmp() as POSIX documents them, where the Cothread objects live at
    -- their addresses: after a call of Cothread::switchTo() for a cothread with another jump buffer,
    -- and any row of calls for cothreads with other buffers than the first caller's, none of them by
    -- the cothread that it is for, a call for that caller goes on behind its own call, with gCurrent
    -- as before it, and none of the calls fails.
    pub switch_to-switch_to_setjmp :
        IsJumpLibrary lib
        → (j : ℕ) (k l : K) (ts : List (ℕ × K)) (r : Program) → Alive r r.current
        → Alive r j
        → AllAlive r (Places.targets ts)
        → Places.Leaves j ts
        → jmp_buf_for (object j) ≢ jmp_buf_for (object r.current)
        → Avoids jmp_buf_for (object r.current) (Places.moves objects threads ts)
        → (z : Program) × ((call j k r >>= (λ q. run_calls ts q >>= call r.current l)) ≡ ok z)
          × (z.current ≡ r.current)
          × (z.world.goes ≡ some (in_switch_to k))
    switch_to-switch_to_setjmp law j k l ts r here there alive leaves =
        Places.call-call H (switch_to lib) objects calls threads jmp_buf_for in_switch_to
          lib.siglongjmp (switch_to-Saves lib law) j k l ts r here there alive

    -- Over such a library, where the Cothread objects live at their addresses and the target's buffer
    -- holds what the signal handler has left there in a Prepare() whose system calls succeed: a call
    -- of Cothread::switchTo() for a cothread with another buffer than the caller's does not fail,
    -- makes the target current, and goes on in the handler, with the target's entry point and on its
    -- stack above the buffer.
    pub switch_to-prepare_setjmp :
        IsJumpLibrary lib
        → (jmp_size j : ℕ) (entry : E) (signals : Signals E) (k : K) (r : Program)
        → Alive r r.current
        → Alive r j
        → jmp_buf_for (object j) ≢ jmp_buf_for (object r.current)
        → lib.siglongjmp (jmp_buf_for (object j)) r.world.buffers
          ≡ in_thunk (
              (prepare jmp_size
                  (record { sigaltstack = 0; sigaction = 0; raise = 0 })
                  (object j)
                  entry
                  signals).0.jumps
                (jmp_buf_for (object j)))
        → (z : Program) × (call j k r ≡ ok z)
          × (z.current ≡ j)
          × (z.world.goes
              ≡ some (
                  in_setup_thunk
                    (record { entry = entry; stack = signal_stack jmp_size (object j) })))
    switch_to-prepare_setjmp law jmp_size j entry signals k r here there differ filled = (
      Places.called H (switch_to lib) objects calls threads j k r,
      Places.call-called H (switch_to lib) objects calls threads j k r here there,
      refl,
      switch_to-prepare lib law jmp_size (object j) (object r.current) entry signals k
          r.world.buffers differ filled,
    )
