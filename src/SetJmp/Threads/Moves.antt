-- ===== src/SetJmp/Threads/Moves.antt =====
-- A step in Prepare() of src/arch/setjmp/SetJmp.cpp keeps each field of the invariant.
use libcommunism.Base.{ℕ, Bool, true, some, ◌≡◌, ◌≢◌, refl, arith}
use libcommunism.SetJmp.{EntryContext, setup_thunk, signal_stack, set_jump}
use libcommunism.SetJmp.Threads.{
  Shared, Local, System, Move, context, update, idle, armed, handling, lock, save,
}
use libcommunism.SetJmp.Threads.Invariant.{holds, publishes, alternates, saves, Inv}
use libcommunism.SetJmp.Threads.Guard.{guard}

module _ {E : Type 0} where
  module _ {jmp_size : ℕ} {can_fail : Bool} {s : System E} (inv : Inv jmp_size s) (i : ℕ) where
    Move-owner :
        {k : Local E} {m : Shared E} {l : Local E}
        → Move jmp_size can_fail i s.shared k m l
        → s.threads i ≡ k
        → (j : ℕ) → holds (update s.threads i l j).stage ≡ true
        → m.lock ≡ some j
    unfolding holds
    Move-owner (lock e f) here j q = ground (arith, e, f, inv.owner j)
    Move-owner mv here j q = ground (arith, guard mv, inv.owner j, inv.owner i)

    Move-owned :
        {k : Local E} {m : Shared E} {l : Local E}
        → Move jmp_size can_fail i s.shared k m l
        → s.threads i ≡ k
        → (j : ℕ) → m.lock ≡ some j
        → holds (update s.threads i l j).stage ≡ true
    unfolding holds
    Move-owned (lock e f) here j q = ground (arith, e, f, inv.owned j)
    Move-owned mv here j q = ground (arith, guard mv, inv.owned j, inv.owned i)

    Move-preparing :
        {k : Local E} {m : Shared E} {l : Local E}
        → Move jmp_size can_fail i s.shared k m l
        → s.threads i ≡ k
        → (j : ℕ) → publishes (update s.threads i l j).stage ≡ true
        → m.preparing ≡ some (context (update s.threads i l j))
    unfolding holds publishes
    Move-preparing (lock e f) here j q = ground (arith, e, f, inv.preparing j)
    Move-preparing mv here j q =
        ground (arith, guard mv, inv.preparing j, inv.preparing i, inv.owner i, inv.owner j)

    Move-alternate :
        {k : Local E} {m : Shared E} {l : Local E}
        → Move jmp_size can_fail i s.shared k m l
        → s.threads i ≡ k
        → (j : ℕ) → alternates (update s.threads i l j).stage ≡ true
        → (update s.threads i l j).alt_stack ≡ signal_stack jmp_size (update s.threads i l j).thread
    unfolding alternates
    Move-alternate (lock e f) here j q = ground (arith, e, f, inv.alternate j)
    Move-alternate mv here j q = ground (arith, guard mv, inv.alternate j, inv.alternate i)

    Move-action :
        {k : Local E} {m : Shared E} {l : Local E}
        → Move jmp_size can_fail i s.shared k m l
        → s.threads i ≡ k
        → (j : ℕ) → (update s.threads i l j).stage ≡ armed
        → m.action ≡ setup_thunk
    unfolding holds
    Move-action (lock e f) here j q = ground (arith, e, f, inv.action j)
    Move-action mv here j q = ground (arith, guard mv, inv.action j, inv.owner i, inv.owner j)

    Move-loaded :
        {k : Local E} {m : Shared E} {l : Local E}
        → Move jmp_size can_fail i s.shared k m l
        → s.threads i ≡ k
        → (j : ℕ) (ctx : EntryContext E) → (update s.threads i l j).stage ≡ handling ctx
        → ctx ≡ context (update s.threads i l j)
    unfolding publishes
    Move-loaded (lock e f) here j ctx q = ground (arith, e, f, inv.loaded j ctx)
    Move-loaded mv here j ctx q = ground (arith, guard mv, inv.loaded j ctx, inv.preparing i)

    Move-filled :
        {k : Local E} {m : Shared E} {l : Local E}
        → Move jmp_size can_fail i s.shared k m l
        → s.threads i ≡ k
        → (j : ℕ) → saves (update s.threads i l j).stage ≡ true
        → m.jumps (update s.threads i l j).thread.stack.addr
          ≡ some (record {
            entry = (update s.threads i l j).entry;
            stack = signal_stack jmp_size (update s.threads i l j).thread;
          })
    unfolding saves set_jump alternates
    Move-filled (lock e f) here j q = ground (arith, e, f, inv.filled j)
    Move-filled (save {ctx} e) here j q =
        ground (arith, e, inv.filled j, inv.apart i j, inv.loaded i ctx cc, inv.alternate i)
    Move-filled mv here j q =
        ground (arith, guard mv, inv.filled j, inv.apart i j, inv.alternate i, inv.action i)

    Move_stays :
        {k : Local E} {m : Shared E} {l : Local E}
        → Move jmp_size can_fail i s.shared k m l
        → (k.stage ≢ idle) × (l.thread ≡ k.thread)
    Move_stays (lock e f) = (ground arith, refl)
    Move_stays mv = ground (arith, guard mv)

    Move-apart :
        {k : Local E} {m : Shared E} {l : Local E}
        → Move jmp_size can_fail i s.shared k m l
        → s.threads i ≡ k
        → (a b : ℕ) → (update s.threads i l a).stage ≢ idle
        → (update s.threads i l b).stage ≢ idle
        → (update s.threads i l a).thread.stack.addr ≡ (update s.threads i l b).thread.stack.addr
        → a ≡ b
    Move-apart mv here a b p q r =
        let (in_call, same) = Move_stays mv in ground (arith, in_call, same, inv.apart a b)

    pub Move-Inv :
        {m : Shared E} {l : Local E}
        → Move jmp_size can_fail i s.shared (s.threads i) m l
        → Inv jmp_size (record { shared = m; threads = update s.threads i l })
    Move-Inv mv = record {
      owner = Move-owner mv refl;
      owned = Move-owned mv refl;
      preparing = Move-preparing mv refl;
      alternate = Move-alternate mv refl;
      action = Move-action mv refl;
      loaded = Move-loaded mv refl;
      filled = Move-filled mv refl;
      apart = Move-apart mv refl;
    }
