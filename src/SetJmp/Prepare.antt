-- ===== src/SetJmp/Prepare.antt =====
-- What Prepare() of src/arch/setjmp/SetJmp.cpp leaves of the signal state, on each of its ways.
use libcommunism.Base.{
  Error, throws, raise_failed, sigaction_failed, sigaltstack_failed, ℕ, ◌+◌, ◌*◌, ◌^◌, ◌≤◌, ◌<◌,
  ◌≡◌, ◌≢◌, ◌⊎◌, refl, none, some, ok, arith, ◌==◌, if◌then◌else◌,
}
use libcommunism.Machine.{add_word}
use libcommunism.SetJmp.{
  SetJmp, Signals, Results, round_up, signal_stack, prepare, set_jump, setup_thunk,
}

-- Success: only the cothread's jump buffer and the static have changed.
pub record IsReady {E : Type 0} (jmp_size : ℕ) (thread : SetJmp) (entry : E) (s t : Signals E)
    : Type 0 where
  pub alt_stack : t.alt_stack ≡ s.alt_stack
  pub action : t.action ≡ s.action
  pub jump :
      t.jumps thread.stack.addr
      ≡ some (record { entry = entry; stack = signal_stack jmp_size thread })
  pub others : (q : ℕ) → q ≢ thread.stack.addr → t.jumps q ≡ s.jumps q
  pub above : thread.stack.addr + jmp_size ≤ (signal_stack jmp_size thread).ss_sp

module _ {E : Type 0} (jmp_size : ℕ) (thread : SetJmp) (entry : E) (s : Signals E) where
  abbrev results : ℕ → ℕ → ℕ → Results
  results alt action raise = record { sigaltstack = alt; sigaction = action; raise = raise }

  pub prepare_jump :
      (prepare jmp_size (results 0 0 0) thread entry s).0.jumps thread.stack.addr
      ≡ some (record { entry = entry; stack = signal_stack jmp_size thread })
  unfolding prepare set_jump
  prepare_jump = ground arith

  -- Where the system calls succeed, and the memory lies within the address space and has room for the
  -- sigjmp_buf rounded up, Prepare() returns: a jump to the cothread's buffer runs its entry point
  -- on the part of its memory above the buffer, the signal stack and the action for SIGUSR1 are as
  -- before, and no other buffer has changed.
  pub prepare-IsReady :
      jmp_size + 64 ≤ 2 ^ 64
      → round_up jmp_size ≤ thread.stack.size * 8
      → thread.stack.addr + thread.stack.size * 8 < 2 ^ 64
      → ((prepare jmp_size (results 0 0 0) thread entry s).1 ≡ ok tt)
        × IsReady jmp_size thread entry s (prepare jmp_size (results 0 0 0) thread entry s).0
  unfolding prepare set_jump signal_stack round_up add_word
  prepare-IsReady whole enough fits = (
    refl,
    record {
      alt_stack = refl;
      action = refl;
      jump = prepare_jump;
      others = λ q ne. ground arith;
      above = ground arith;
    },
  )

  -- Where sigaltstack(), sigaction() or raise() fails, Prepare() throws the exception that names the
  -- first of them that fails, the cothread's buffer is not filled, and what the calls before the failure have installed stays: the cothread's stack as
  -- the signal stack, once sigaltstack() has succeeded, and the library's handler, once sigaction()
  -- has.
  pub prepare_fails :
      (alt action raise : ℕ)
      → (alt ≢ 0) ⊎ (action ≢ 0) ⊎ (raise ≢ 0)
      → ((prepare jmp_size (results alt action raise) thread entry s).1
          ≡ throws (
              if alt == 0
              then (if action == 0 then raise_failed else sigaction_failed)
              else sigaltstack_failed))
        × ((prepare jmp_size (results alt action raise) thread entry s).0.jumps thread.stack.addr
            ≡ none)
        × ((prepare jmp_size (results alt action raise) thread entry s).0.alt_stack
            ≡ (if alt == 0 then signal_stack jmp_size thread else s.alt_stack))
        × ((prepare jmp_size (results alt action raise) thread entry s).0.action
            ≡ (if alt == 0 then (if action == 0 then setup_thunk else s.action) else s.action))
  unfolding prepare set_jump
  prepare_fails alt action raise failed = (ground arith, ground arith, ground arith, ground arith)

  pub prepare_throws :
      (alt action raise : ℕ)
      → (alt ≢ 0) ⊎ (action ≢ 0) ⊎ (raise ≢ 0)
      → (e : Error) × ((prepare jmp_size (results alt action raise) thread entry s).1 ≡ throws e)
  unfolding prepare
  prepare_throws alt action raise failed = (
    if alt == 0
        then (if action == 0 then raise_failed else sigaction_failed)
        else sigaltstack_failed,
    ground arith,
  )
