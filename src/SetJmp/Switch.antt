-- ===== src/SetJmp/Switch.antt =====
-- switchTo() of src/arch/setjmp/SetJmp.cpp. sigsetjmp() and siglongjmp() are parameters with the
-- behaviour that POSIX documents.
use libcommunism.Base.{
  ℕ, ◌≡◌, ◌≢◌, refl, ◌∙◌, Option, none, some, List, true, arith, ◌==◌, if◌then◌else◌,
}
use libcommunism.Saved.{Saves, Avoids, after, switch_to-after}
use libcommunism.SetJmp.{SetJmp, Jump, Signals, signal_stack, prepare}
use libcommunism.SetJmp.Prepare.{prepare_jump}

-- The calls of sigsetjmp(), with what the program goes on with when they return a second time: in
-- SignalHandlerSetupThunk(), a cothread's entry point; in switchTo(), the code behind its call, whose
-- place and registers are of type `K`.
pub data Place (E K : Type 0) : Type 0 where
  in_setup_thunk : Jump E → Place E K
  in_switch_to : K → Place E K

-- sigsetjmp(p) at a place, with its result, and siglongjmp(p), which goes on at a place, where the
-- buffer at `p` has been filled.
pub record JumpLibrary (P : Type 0) : Type 1 where
  pub Buffers : Type 0
  pub sigsetjmp : ℕ → P → Buffers → Buffers × ℕ
  pub siglongjmp : ℕ → Buffers → Option P

-- The first return of sigsetjmp() is 0, and a jump goes to the place of the latest call of
-- sigsetjmp() with the same buffer.
pub record IsJumpLibrary {P : Type 0} (lib : JumpLibrary P) : Type 0 where
  pub returns_zero : (p : ℕ) (at : P) (b : lib.Buffers) → (lib.sigsetjmp p at b).1 ≡ 0
  pub latest :
      (p : ℕ) (at : P) (b : lib.Buffers) → lib.siglongjmp p (lib.sigsetjmp p at b).0 ≡ some at
  pub others :
      (p q : ℕ) (at : P) (b : lib.Buffers)
      → q ≢ p
      → lib.siglongjmp q (lib.sigsetjmp p at b).0 ≡ lib.siglongjmp q b

-- The jump that the signal handler fills a buffer with.
abbrev pub in_thunk : {E K : Type 0} → Option (Jump E) → Option (Place E K)
in_thunk none = none
in_thunk (some jump) = some (in_setup_thunk jump)

unfoldable pub jmp_buf_for : SetJmp → ℕ
jmp_buf_for thread = thread.stack.addr

module _ {E K : Type 0} (lib : JumpLibrary (Place E K)) where
  -- Called at `k`: the buffers that it leaves, and where the program goes on, where a jump to a
  -- buffer that is not filled is undefined.
  unfoldable pub switch_to :
      (this from : SetJmp) → K → lib.Buffers → lib.Buffers × Option (Place E K)
  unfolding jmp_buf_for
  switch_to this from k b =
      let (filled, result) = lib.sigsetjmp (jmp_buf_for from) (in_switch_to k) b in
      if result == 0
      then (filled, lib.siglongjmp (jmp_buf_for this) filled)
      else (filled, some (in_switch_to k))

  module _ (law : IsJumpLibrary lib) where
    zero : (p : ℕ) (at : Place E K) (b : lib.Buffers) → ((lib.sigsetjmp p at b).1 == 0) ≡ true
    zero p at b = ground (arith, law.returns_zero p at b)

    switch_to-jump :
        (this from : SetJmp) (k : K) (b : lib.Buffers)
        → (let filled = (lib.sigsetjmp (jmp_buf_for from) (in_switch_to k) b).0 in
            switch_to this from k b ≡ (filled, lib.siglongjmp (jmp_buf_for this) filled))
    unfolding switch_to
    switch_to-jump this from k b = rw (zero (jmp_buf_for from) (in_switch_to k) b) refl

    pub switch_to-Saves : Saves jmp_buf_for in_switch_to lib.siglongjmp switch_to
    switch_to-Saves = record {
      saves = λ this from k b. rw (switch_to-jump this from k b) (law.latest _ _ b);
      others = λ this from k b q ne. rw (switch_to-jump this from k b) (law.others _ q _ b ne);
      resumes = λ this from k b. rw (switch_to-jump this from k b) refl;
    }

    -- A call of switchTo() from `i` returns to its caller when some cothread switches back to `i`,
    -- whatever calls of switchTo() that do not go to `i` there were in between.
    pub switch_to_returns :
        (ts : List (SetJmp × K)) (i j : SetJmp) (k l : K) (b : lib.Buffers)
        → jmp_buf_for j ≢ jmp_buf_for i
        → Avoids jmp_buf_for i ts
        → (let (last, c) = after switch_to ts j (switch_to j i k b).0 in (switch_to i last l c).1)
          ≡ some (in_switch_to k)
    switch_to_returns =
        switch_to-after jmp_buf_for in_switch_to lib.siglongjmp switch_to switch_to-Saves

    -- Where the cothread's buffer holds what the signal handler has left there in a Prepare() whose
    -- system calls succeed, a switch to the cothread from another goes on in the handler, with the
    -- cothread's entry point and its stack above the buffer.
    pub switch_to-prepare :
        (jmp_size : ℕ) (this from : SetJmp) (entry : E) (signals : Signals E) (k : K)
        (b : lib.Buffers)
        → jmp_buf_for this ≢ jmp_buf_for from
        → lib.siglongjmp (jmp_buf_for this) b
          ≡ in_thunk (
              (prepare jmp_size
                  (record { sigaltstack = 0; sigaction = 0; raise = 0 })
                  this
                  entry
                  signals).0.jumps
                (jmp_buf_for this))
        → (switch_to this from k b).1
          ≡ some (in_setup_thunk (record { entry = entry; stack = signal_stack jmp_size this }))
    unfolding jmp_buf_for
    switch_to-prepare jmp_size this from entry signals k b ne filled =
        switch_to-Saves.resumes this from k b
        ∙ switch_to-Saves.others this from k b (jmp_buf_for this) ne
        ∙ filled
        ∙ λ i. in_thunk (prepare_jump jmp_size this entry signals i)
