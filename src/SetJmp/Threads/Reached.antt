-- ===== src/SetJmp/Threads/Reached.antt =====
-- The invariant of threads in Prepare() of src/arch/setjmp/SetJmp.cpp in every state that they reach.
use libcommunism.Base.{ℕ, Bool, arith}
use libcommunism.SetJmp.{set_jump}
use libcommunism.SetJmp.Threads.{System, Step, IsInitial, begin, move, leave, Reach, start, later}
use libcommunism.SetJmp.Threads.Invariant.{holds, publishes, alternates, saves, Inv, IsInitial-Inv}
use libcommunism.SetJmp.Threads.Moves.{Move-Inv}

module _ {E : Type 0} where
  -- Every step of the threads keeps the invariant.
  pub Step-Inv :
      {jmp_size : ℕ} {can_fail : Bool} {s t : System E}
      → Step jmp_size can_fail s t
      → Inv jmp_size s
      → Inv jmp_size t
  unfolding holds publishes alternates saves set_jump
  Step-Inv (begin i thread entry e distinct) inv = record {
    owner = λ j q. ground (arith, inv.owner j);
    owned = λ j q. ground (arith, inv.owned j);
    preparing = λ j q. ground (arith, inv.preparing j);
    alternate = λ j q. ground (arith, inv.alternate j);
    action = λ j q. ground (arith, inv.action j);
    loaded = λ j ctx q. ground (arith, inv.loaded j ctx);
    filled = λ j q. ground (arith, inv.filled j, distinct j);
    apart = λ a b p q r. ground (arith, inv.apart a b, distinct a, distinct b);
  }
  Step-Inv (move i mv) inv = Move-Inv inv i mv
  Step-Inv (leave i e) inv = record {
    owner = λ j q. ground (arith, inv.owner j);
    owned = λ j q. ground (arith, inv.owned j);
    preparing = λ j q. ground (arith, inv.preparing j);
    alternate = λ j q. ground (arith, inv.alternate j);
    action = λ j q. ground (arith, inv.action j);
    loaded = λ j ctx q. ground (arith, inv.loaded j ctx);
    filled = λ j q. ground (arith, inv.filled j);
    apart = λ a b p q r. ground (arith, inv.apart a b);
  }

  pub Reach-Inv :
      {jmp_size : ℕ} {can_fail : Bool} {s t : System E}
      → IsInitial s
      → Reach jmp_size can_fail s t
      → Inv jmp_size t
  Reach-Inv init start = IsInitial-Inv init
  Reach-Inv init (later r st) = Step-Inv st (Reach-Inv init r)
