-- ===== src/UContext/Returned.antt =====
-- src/arch/ucontext/UContext.cpp: EntryStub() and InvokeCothreadDidReturnHandler(). The run of an entry
-- point is a parameter; it may register and start other cothreads.
use libcommunism.Base.{ℕ, none, some, Outcome, ok, throws, out_of_range, ◌>>=◌, ◌==◌, if◌then◌else◌}
use libcommunism.Cothread.{Backend, Runtime}
use libcommunism.Cothread.Handlers.{Ending, terminates, invoke_return_handler}
use libcommunism.UContext.{Contexts, take}

module _ {H E : Type 0} (b : Backend) (user : H → ℕ → Runtime H b → Outcome (Runtime H b))
    (run : E → Contexts E → Runtime H b → Outcome (Contexts E × Runtime H b)) where
  -- gReturnHandler(Cothread::Current()), and std::terminate() behind it.
  unfoldable pub invoke_cothread_did_return_handler : Runtime H b → Outcome (Ending (Runtime H b))
  invoke_cothread_did_return_handler r = do s ← invoke_return_handler b user r; ok (terminates s)

  -- `gContextInfo.at(id)` throws std::out_of_range where there is no entry.
  unfoldable pub entry_stub :
      (id : ℕ) → Contexts E → Runtime H b → Outcome (Contexts E × Ending (Runtime H b))
  unfolding take invoke_cothread_did_return_handler
  entry_stub id c r = elim (take id c) [
    | none ↦ throws out_of_range
    | some (entry, d) ↦ do
      (d', s) ← run entry d r
      e ← invoke_cothread_did_return_handler s
      ok (d', e)
  ]

  abbrev erased : ℕ → Contexts E → Contexts E
  erased id c = record c { info = λ q. if id == q then none else c.info q }
