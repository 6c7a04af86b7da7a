-- ===== src/X86/Threads.antt =====
-- Cothreads that switch by the code of src/arch/x86/Fastcall.S.
use libcommunism.Base.{ℕ, arith}
use libcommunism.Impl.{word32}
use libcommunism.Machine.{State, exec}
use libcommunism.Machine.Switch.{IsRunning, caller}
use libcommunism.Machine.Threads.{Layout, IsLayout, View, Refines, CanLeave, RunsWithout}
use libcommunism.Machine.Threads.Resume
use libcommunism.X86.{cothread_off_context_top}
use libcommunism.X86.{Reg, ecx, edx, Reg-discrete, saved, switch_code}
use libcommunism.X86.Entry.{switch_code-Switched_x86}

-- Over disjoint stacks and objects, a cothread that leaves by Switch() goes on, when some cothread
-- switches back to it, at its return address, with its stack pointer and with its callee-saved
-- registers, whichever cothreads ran in between and whatever they did to registers and memory,
-- but for stacks not their own and the fields with the stack pointers, which they leave alone.
pub round_trip_x86 :
    (l : Layout) (v : View) (j : ℕ) (s : State Reg) {m : ℕ} {u : State Reg}
    → IsLayout word32 cothread_off_context_top l
    → Refines word32 cothread_off_context_top saved l v s
    → CanLeave word32 cothread_off_context_top saved l ecx edx v.current j s
    → RunsWithout word32 cothread_off_context_top saved l Reg-discrete ecx edx switch_code v.current
        j
        (exec Reg-discrete word32 switch_code s)
        m
        u
    → CanLeave word32 cothread_off_context_top saved l ecx edx m v.current u
    → IsRunning saved (caller word32 saved s) (exec Reg-discrete word32 switch_code u)
round_trip_x86 l v j s valid r leave run back =
    Resume.resumes_caller word32 (omega arith) cothread_off_context_top saved l valid Reg-discrete
      ecx edx switch_code switch_code-Switched_x86 v j s r leave run back
