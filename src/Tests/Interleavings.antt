-- ===== src/Tests/Interleavings.antt =====
-- Two kernel threads in Prepare() of the SetJmp backend.
use native.Mathlib.Decide.{ℕ_discrete}
use libcommunism.SetJmp.Threads.Invariant.{calls}
use libcommunism.Base.{ℕ, Outcome, ◌≡◌, ◌⊎◌, refl, true, false, none, some, ok, arith}
use libcommunism.SetJmp.{SetJmp, Results, other_action, signal_stack, prepare}
use libcommunism.SetJmp.Threads.{
  System, Local, Reach, IsInitial, CanMove, context, idle, begin, move, start, later, lock,
  alternate, publish, arm, deliver, save, alternate_back, disarm, unlock,
}
use libcommunism.SetJmp.Threads.Safety.{handles_own, finished_lem, can_go_on}
use libcommunism.SetJmp.Threads.Restored.{restores}
use libcommunism.SetJmp.Threads.Alone.{prepare-Reach, IsEnded, view}

abbrev cothread : ℕ → SetJmp
cothread p = record { stack = record { addr = p; size = 64 }; owns_stack = false }

abbrev waiting : Local ℕ
waiting = record {
  stage = idle;
  alt_stack = record { ss_sp = 1; ss_size = 2 };
  thread = cothread 0;
  entry = 0;
  old_stack = record { ss_sp = 0; ss_size = 0 };
  old_action = other_action 0;
}

abbrev before : System ℕ
before = record {
  shared = record { lock = none; preparing = none; action = other_action 3; jumps = λ p. none };
  threads = λ i. waiting;
}

before-IsInitial : IsInitial before
before-IsInitial = record { free = refl; outside = λ i. refl }

-- Both threads have called Prepare(), and thread 0 has the lock and is in the handler.
record Run : Type 0 where
  last : System ℕ
  run : Reach 200 false before last

abbrev in_handler : Run
unfolding ℕ_discrete
in_handler = record {
  last = _;
  run =
      later
        (later
          (later
            (later
              (later
                (later (later start (begin 0 (cothread 4096) 7 refl (λ j e. absurd (e refl))))
                  (begin 1 (cothread 8192) 9 refl (λ j e. ground arith)))
                (move 0 (lock refl refl)))
              (move 0 (alternate refl)))
            (move 0 (publish refl)))
          (move 0 (arm refl)))
        (move 0 (deliver refl refl refl));
}

-- Thread 0 has returned, and thread 1 still waits.
abbrev returned : Run
unfolding ℕ_discrete
returned = record {
  last = _;
  run =
      later
        (later (later (later in_handler.run (move 0 (save refl))) (move 0 (alternate_back refl)))
          (move 0 (disarm refl)))
        (move 0 (unlock refl));
}

handles_own_example :
    (record { impl = 4096; entry = 7 } ≡ context (in_handler.last.threads 0))
    × ((in_handler.last.threads 0).alt_stack ≡ signal_stack 200 (cothread 4096))
unfolding ℕ_discrete
handles_own_example =
    handles_own before-IsInitial in_handler.run 0 (record { impl = 4096; entry = 7 }) refl

finished_lem_example :
    returned.last.shared.jumps 4096
    ≡ some (record { entry = 7; stack = signal_stack 200 (cothread 4096) })
unfolding ℕ_discrete
finished_lem_example = finished_lem before-IsInitial returned.run 0 refl

can_go_on_example :
    (j : ℕ) × ((j ≡ 1) ⊎ (in_handler.last.shared.lock ≡ some j))
    × CanMove 200 false j in_handler.last.shared (in_handler.last.threads j)
unfolding ℕ_discrete calls
can_go_on_example = can_go_on before-IsInitial in_handler.run 1 refl

restores_example :
    (◌≡◌ {A = Outcome (Unit {0})} (ok tt) (ok tt))
    × ((returned.last.threads 0).alt_stack ≡ record { ss_sp = 1; ss_size = 2 })
    × (returned.last.shared.action ≡ other_action 3)
    × (returned.last.shared.jumps 4096
        ≡ some (record { entry = 7; stack = signal_stack 200 (cothread 4096) }))
unfolding ℕ_discrete
restores_example = restores before-IsInitial returned.run 0 (ok tt) refl refl

-- raise() fails.
abbrev results : Results
results = record { sigaltstack = 0; sigaction = 0; raise = 1 }

prepare-Reach_example :
    (t : System ℕ) × Reach 200 true before t
    × IsEnded 200 t.shared
        (t.threads 0)
        (prepare 200 results (cothread 4096) 7 (view 200 before.shared waiting))
prepare-Reach_example =
    prepare-Reach 200 results 0 (cothread 4096) 7 before refl (λ j e. absurd (e refl)) refl
