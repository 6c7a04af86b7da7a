-- ===== src/SetJmp/Returned.antt =====
-- src/arch/setjmp/SetJmp.cpp: what a jump to a buffer runs that SignalHandlerSetupThunk() has filled,
-- and InvokeCothreadDidReturnHandler(). The run of an entry point is a parameter.
use libcommunism.Base.{ℕ, ◌≡◌, ◌≢◌, refl, none, some, Outcome, ok, undefined, ◌>>=◌}
use libcommunism.Cothread.{Backend, Runtime, user_handler}
use libcommunism.Cothread.Handlers.{Ending, terminates, invoke_return_handler, invoke-returning}
use libcommunism.SetJmp.{SetJmp, Signals, prepare}
use libcommunism.SetJmp.Prepare.{prepare_jump}

module _ {H E : Type 0} (b : Backend) (user : H → ℕ → Runtime H b → Outcome (Runtime H b))
    (run : E → Runtime H b → Outcome (Runtime H b)) where
  -- gReturnHandler(Cothread::Current()), and std::terminate() behind it.
  unfoldable pub invoke_cothread_did_return_handler : Runtime H b → Outcome (Ending (Runtime H b))
  invoke_cothread_did_return_handler r = do s ← invoke_return_handler b user r; ok (terminates s)

  -- What siglongjmp() to the buffer at `p` runs, where SignalHandlerSetupThunk() has filled it.
  unfoldable pub start : (p : ℕ) → Signals E → Runtime H b → Outcome (Ending (Runtime H b))
  unfolding invoke_cothread_did_return_handler
  start p signals r = elim (signals.jumps p) [
    | none ↦ undefined
    | some jump ↦ do s ← run jump.entry r; invoke_cothread_did_return_handler s
  ]

  -- After a Prepare() whose system calls succeed, a jump to the cothread's buffer runs its entry point;
  -- where that returns, a cothread is current then, and the handler that is set returns too, the
  -- handler has been called once and the process is terminated.
  pub start-prepare :
      (jmp_size : ℕ) (thread : SetJmp) (entry : E) (signals : Signals E) (h : H)
      (r s t : Runtime H b)
      → run entry r ≡ ok s
      → s.current ≢ 0
      → s.handler ≡ user_handler h
      → user h s.current s ≡ ok t
      → start thread.stack.addr
          (prepare jmp_size
            (record { sigaltstack = 0; sigaction = 0; raise = 0 })
            thread
            entry
            signals).0
          r
        ≡ ok (terminates t)
  unfolding start
  start-prepare jmp_size thread entry signals h r s t e ne set returns =
      rw
        (
          prepare_jump jmp_size thread entry signals,
          start,
          e,
          invoke_cothread_did_return_handler,
          invoke-returning b user h s t ne set returns,
        )
        refl
