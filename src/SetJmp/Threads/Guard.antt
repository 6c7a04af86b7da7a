-- ===== src/SetJmp/Threads/Guard.antt =====
-- The premise of each step of Prepare() of src/arch/setjmp/SetJmp.cpp.
use libcommunism.Base.{ℕ, Bool, true, none, some, ◌≡◌, ◌≢◌}
use libcommunism.SetJmp.{setup_thunk}
use libcommunism.SetJmp.Threads.{
  Shared, Local, Move, cleared, locked, stacked, published, armed, handling, raised, unstacked,
  restored, failing, lock, alternate, alternate_fails, publish, arm, arm_fails, deliver,
  deliver_other, raise_fails, save, alternate_back, disarm, unlock, unwind,
}

module _ {E : Type 0} where
  -- The premises of a move.
  abbrev pub Guard :
      {jmp_size : ℕ} {can_fail : Bool} {i : ℕ} {m : Shared E} {l : Local E} {m' : Shared E}
      {l' : Local E}
      → Move jmp_size can_fail i m l m' l'
      → Type 0
  Guard {m} {l} (lock _ _) = (l.stage ≡ cleared) × (m.lock ≡ none)
  Guard {l} (alternate _) = l.stage ≡ locked
  Guard {can_fail} {l} (alternate_fails _ _) = (l.stage ≡ locked) × (can_fail ≡ true)
  Guard {l} (publish _) = l.stage ≡ stacked
  Guard {l} (arm _) = l.stage ≡ published
  Guard {can_fail} {l} (arm_fails _ _) = (l.stage ≡ published) × (can_fail ≡ true)
  Guard {m} {l} (deliver {ctx} _ _ _) = (l.stage ≡ armed) × (m.preparing ≡ some ctx)
  Guard {m} {l} (deliver_other {n} _ _) = (l.stage ≡ armed) × (m.action ≢ setup_thunk)
  Guard {can_fail} {l} (raise_fails _ _) = (l.stage ≡ armed) × (can_fail ≡ true)
  Guard {l} (save {ctx} _) = l.stage ≡ handling ctx
  Guard {l} (alternate_back _) = l.stage ≡ raised
  Guard {l} (disarm _) = l.stage ≡ unstacked
  Guard {l} (unlock _) = l.stage ≡ restored
  Guard {l} (unwind {e} _) = l.stage ≡ failing e

  pub guard :
      {jmp_size : ℕ} {can_fail : Bool} {i : ℕ} {m : Shared E} {l : Local E} {m' : Shared E}
      {l' : Local E} (mv : Move jmp_size can_fail i m l m' l')
      → Guard mv
  guard (lock e f) = (e, f)
  guard (alternate e) = e
  guard (alternate_fails e f) = (e, f)
  guard (publish e) = e
  guard (arm e) = e
  guard (arm_fails e f) = (e, f)
  guard (deliver e _ f) = (e, f)
  guard (deliver_other e f) = (e, cc)
  guard (raise_fails e f) = (e, f)
  guard (save e) = e
  guard (alternate_back e) = e
  guard (disarm e) = e
  guard (unlock e) = e
  guard (unwind e) = e
