-- ===== src/SetJmp/Threads/Alone.antt =====
-- Prepare() of src/arch/setjmp/SetJmp.cpp as one step, `prepare`, and as the steps of a thread that no
-- other interrupts.
use libcommunism.Base.{
  ℕ, true, false, none, ◌≡◌, refl, arith, Outcome, ◌==◌, ◌≢◌, Bool-cases, inl, inr,
}
use libcommunism.SetJmp.{SetJmp, Signals, Results, prepare, set_jump}
use libcommunism.SetJmp.Threads.{
  idle, begin, Shared, Local, System, Move, cleared, finished, move, lock, alternate,
  alternate_fails, publish, arm, arm_fails, deliver, raise_fails, save, alternate_back, disarm,
  unlock, unwind, Reach, start, later,
}

module _ {E : Type 0} (jmp_size : ℕ) where
  -- Steps of thread `i` only.
  data Alone (i : ℕ) : Shared E → Local E → Shared E → Local E → Type 0 where
    here : {m : Shared E} {l : Local E} → Alone i m l m l
    next :
        {m n o : Shared E} {l k j : Local E}
        → Move jmp_size true i m l n k
        → Alone i n k o j
        → Alone i m l o j

  Alone-Reach :
      {i : ℕ} {m n : Shared E} {l k : Local E} {s t : System E}
      → Alone i m l n k
      → Reach jmp_size true s t
      → t.shared ≡ m
      → t.threads i ≡ l
      → (u : System E) × Reach jmp_size true s u × (u.shared ≡ n) × (u.threads i ≡ k)
  Alone-Reach {t} here r e f = (t, r, e, f)
  Alone-Reach {i} (next {n} {k} mv rest) r e f =
      Alone-Reach rest (later r (move i {m = n} {l = k} (rw (e, f) mv))) refl (ground arith)

  -- What a thread sees of the signal state.
  abbrev pub view : Shared E → Local E → Signals E
  view m l = record {
    alt_stack = l.alt_stack;
    action = m.action;
    preparing = m.preparing;
    jumps = m.jumps;
  }

  -- A call has ended the way that Prepare() in one step ends, and the lock is free.
  pub record IsEnded (m : Shared E) (l : Local E) (p : Signals E × Outcome (Unit {0}))
      : Type 0 where
    pub signals : view m l ≡ p.0
    pub stage : l.stage ≡ finished p.1
    pub free : m.lock ≡ none

  module _ (i : ℕ) (results : Results) (m : Shared E) (l : Local E) (free : m.lock ≡ none) where
    -- Behind the memset().
    abbrev cleared_shared : Shared E
    cleared_shared = record m { jumps = set_jump l.thread.stack.addr none m.jumps }

    abbrev calling : Local E
    calling = record l { stage = cleared }

    abbrev Ends : Type 0
    Ends =
        (n : Shared E) × (k : Local E) × Alone i cleared_shared calling n k
        × IsEnded n k (prepare jmp_size results l.thread l.entry (view m l))

    ends_alternate : (results.sigaltstack == 0) ≡ false → Ends
    unfolding prepare
    ends_alternate failed = (
      _,
      _,
      next (lock refl free) (next (alternate_fails refl refl) (next (unwind refl) here)),
      record { signals = ground arith; stage = ground arith; free = refl },
    )

    ends_action : (results.sigaltstack == 0) ≡ true → (results.sigaction == 0) ≡ false → Ends
    unfolding prepare
    ends_action fine failed = (
      _,
      _,
      next (lock refl free) (
          next (alternate refl)
            (next (publish refl) (next (arm_fails refl refl) (next (unwind refl) here)))),
      record { signals = ground arith; stage = ground arith; free = refl },
    )

    ends_raise :
        (results.sigaltstack == 0) ≡ true
        → (results.sigaction == 0) ≡ true
        → (results.raise == 0) ≡ false
        → Ends
    unfolding prepare
    ends_raise fine set failed = (
      _,
      _,
      next (lock refl free) (
          next (alternate refl) (
            next (publish refl)
              (next (arm refl) (next (raise_fails refl refl) (next (unwind refl) here))))),
      record { signals = ground arith; stage = ground arith; free = refl },
    )

    ends_ok :
        (results.sigaltstack == 0) ≡ true
        → (results.sigaction == 0) ≡ true
        → (results.raise == 0) ≡ true
        → Ends
    unfolding prepare set_jump
    ends_ok fine set raised = (
      _,
      _,
      next (lock refl free) (
          next (alternate refl) (
            next (publish refl) (
              next (arm refl) (
                next (deliver refl refl refl) (
                  next (save refl) (
                    next (alternate_back refl) (next (disarm refl) (next (unlock refl) here)))))))),
      record { signals = ground arith; stage = ground arith; free = refl },
    )

    ends : Ends
    ends = elim (Bool-cases (results.sigaltstack == 0)) [
      | inr failed ↦ ends_alternate failed
      | inl fine ↦ elim (Bool-cases (results.sigaction == 0)) [
        | inr failed ↦ ends_action fine failed
        | inl set ↦ elim (Bool-cases (results.raise == 0)) [
          | inr failed ↦ ends_raise fine set failed
          | inl raised ↦ ends_ok fine set raised
        ]
      ]
    ]

  -- Prepare() as one step is one of the interleavings: from any state in which the lock is free and
  -- the thread is not in Prepare(), a call for a cothread whose memory no other call has ends,
  -- whichever of the system calls fail, the way that `prepare` says, with the outcome and the
  -- signal state that it says, and leaves the lock free.
  pub prepare-Reach :
      (results : Results) (i : ℕ) (thread : SetJmp) (entry : E) (s : System E)
      → (s.threads i).stage ≡ idle
      → ((j : ℕ) → (s.threads j).stage ≢ idle → (s.threads j).thread.stack.addr ≢ thread.stack.addr)
      → s.shared.lock ≡ none
      → (t : System E) × Reach jmp_size true s t
        × IsEnded t.shared
            (t.threads i)
            (prepare jmp_size results thread entry (view s.shared (s.threads i)))
  prepare-Reach results i thread entry s outside distinct free =
      let l : Local E = record (s.threads i) { thread = thread; entry = entry } in
      let (n, k, alone, ended) = ends i results s.shared l free in
      let (t, run, shared, local) =
        Alone-Reach alone (later start (begin i thread entry outside distinct)) refl
          (ground arith) in
      (t, run, rw (shared, local) ended)
