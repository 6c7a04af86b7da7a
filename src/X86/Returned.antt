-- ===== src/X86/Returned.antt =====
-- src/arch/x86/Common.cpp: CothreadReturned() and DereferenceCallInfo(). The run of the entry
-- point and `delete info` are parameters.
use libcommunism.Base.{ℕ, Outcome, ok, ◌>>=◌}
use libcommunism.Cothread.{Backend, Runtime}
use libcommunism.Cothread.Handlers.{Ending, terminates, invoke_return_handler}

module _ {H : Type 0} (b : Backend) (user : H → ℕ → Runtime H b → Outcome (Runtime H b)) where
  unfoldable pub cothread_returned : Runtime H b → Outcome (Runtime H b)
  cothread_returned r = invoke_return_handler b user r

  unfoldable pub dereference_call_info :
      (entry : Runtime H b → Outcome (Runtime H b))
      → (delete_info : Runtime H b → Runtime H b) → Runtime H b
      → Outcome (Ending (Runtime H b))
  dereference_call_info entry delete_info r = do
    s ← entry r
    t ← cothread_returned (delete_info s)
    ok (terminates t)
