-- ===== src/Amd64/Returned.antt =====
-- src/arch/amd64/Common.cpp: CothreadReturned() and DereferenceCallInfo(), which returns to
-- EntryReturnedStub() of SysV.S or Windows.asm. The run of the entry point and `delete info` are parameters.
use libcommunism.Base.{ℕ, Outcome, ok, undefined, ◌>>=◌, List, [], ◌∷◌, ◌==◌, if◌then◌else◌}
use libcommunism.Machine.{Instr, ret, jmp, call}
use libcommunism.Cothread.{Backend, Runtime}
use libcommunism.Cothread.Handlers.{Ending, runs_off, invoke_return_handler}

module _ {H : Type 0} (b : Backend) (user : H → ℕ → Runtime H b → Outcome (Runtime H b)) where
  unfoldable pub cothread_returned : Runtime H b → Outcome (Runtime H b)
  cothread_returned r = invoke_return_handler b user r

  unfoldable pub dereference_call_info :
      (entry : Runtime H b → Outcome (Runtime H b))
      → (delete_info : Runtime H b → Runtime H b) → Runtime H b
      → Outcome (Runtime H b)
  dereference_call_info entry delete_info r = do s ← entry r; ok (delete_info s)

  -- The program under code from which only `cothread_returned` is called: the other instructions
  -- concern the processor alone, a jump leaves the code, and behind its last one the processor runs
  -- off its end.
  unfoldable pub run_code :
      {R : Type 0} (at : ℕ) → List (Instr R) → Runtime H b → Outcome (Ending (Runtime H b))
  run_code at [] r = ok (runs_off r)
  run_code at (call target next ∷ is) r =
      (if target == at then cothread_returned r else undefined) >>= run_code at is
  run_code at (ret ∷ is) r = undefined
  run_code at (jmp t ∷ is) r = undefined
  run_code at (i ∷ is) r = run_code at is r

  -- EntryReturnedStub(), with CothreadReturned() at `at` and the end of the code at `next`.
  unfoldable pub entry_returned_stub :
      {R : Type 0} (code : (at next : ℕ) → List (Instr R)) (at next : ℕ)
      → Runtime H b
      → Outcome (Ending (Runtime H b))
  entry_returned_stub code at next r = run_code at (code at next) r
