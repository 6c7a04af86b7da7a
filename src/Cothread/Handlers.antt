-- ===== src/Cothread/Handlers.antt =====
-- gReturnHandler: how the backends invoke it when an entry point has returned, and what happens
-- then. A handler of the program's own is a parameter; `ok` is its return.
use libcommunism.Base.{ℕ, ◌≡◌, ◌≢◌, some, Outcome, ok, terminated, ◌>>=◌, arith}
use libcommunism.Cothread.{
  Backend, Cothread, Runtime, Handler, default_handler, user_handler, current,
  default_cothread_returned_handler, set_return_handler, reset_return_handler,
}

-- Where the code behind an entry point ends: in std::terminate(), or by running off its end.
pub data Ending (S : Type 0) : Type 0 where
  terminates : S → Ending S
  runs_off : S → Ending S

module _ {H : Type 0} (b : Backend) (user : H → ℕ → Runtime H b → Outcome (Runtime H b)) where
  call_handler : Handler H → ℕ → Runtime H b → Outcome (Runtime H b)
  call_handler default_handler c r = (default_cothread_returned_handler c r.threads).1 >>= λ _. ok r
  call_handler (user_handler h) c r = user h c r

  -- gReturnHandler(Cothread::Current())
  unfoldable pub invoke_return_handler : Runtime H b → Outcome (Runtime H b)
  unfolding call_handler
  invoke_return_handler r = do (c, s) ← current b r; call_handler s.handler c s

  -- Where a cothread is current, a handler that has been set is called with it.
  pub invoke-set_return_handler :
      (h : H) (r : Runtime H b)
      → r.current ≢ 0
      → invoke_return_handler (set_return_handler b h r)
        ≡ user h r.current (set_return_handler b h r)
  unfolding invoke_return_handler set_return_handler current
  invoke-set_return_handler h r ne = ground arith

  -- Where the current cothread is live, the default handler ends the process.
  pub invoke-reset_return_handler :
      (r : Runtime H b) {t : Cothread}
      → r.current ≢ 0
      → r.threads r.current ≡ some t
      → invoke_return_handler (reset_return_handler b r) ≡ terminated
  unfolding invoke_return_handler reset_return_handler current default_cothread_returned_handler
  invoke-reset_return_handler r ne e = ground arith

  -- A handler that returns when it is called with the current cothread.
  pub invoke-returning :
      (h : H) (r s : Runtime H b)
      → r.current ≢ 0
      → r.handler ≡ user_handler h
      → user h r.current r ≡ ok s
      → invoke_return_handler r ≡ ok s
  unfolding invoke_return_handler current
  invoke-returning h r s ne set returns = ground (arith, returns)
