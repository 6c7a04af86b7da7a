-- ===== src/Amd64/Windows/Threads.antt =====
-- Cothreads that switch by the code of src/arch/amd64/Windows.asm.
use libcommunism.Base.{ℕ, arith}
use libcommunism.Impl.{word64}
use libcommunism.Machine.{State, exec}
use libcommunism.Machine.Switch.{IsRunning, caller}
use libcommunism.Machine.Threads.{Layout, IsLayout, View, Refines, CanLeave, RunsWithout}
use libcommunism.Machine.Threads.Resume
use libcommunism.Amd64.Object.{cothread_off_context_top}
use libcommunism.Amd64.Windows.{Reg, rcx, rdx, Reg-discrete, saved, switch_code}
use libcommunism.Amd64.Windows.Entry.{switch_code-Switched_win}

-- Over disjoint stacks and objects, a cothread that leaves by Switch() goes on, when some cothread
-- switches back to it, at its return address, with its stack pointer and with its callee-saved
-- registers, whichever cothreads ran in between and whatever they did to registers and memory,
-- but for stacks not their own and the fields with the stack pointers, which they leave alone.
pub round_trip_win :
    (l : Layout) (v : View) (j : ℕ) (s : State Reg) {m : ℕ} {u : State Reg}
    → IsLayout word64 cothread_off_context_top l
    → Refines word64 cothread_off_context_top saved l v s
    → CanLeave word64 cothread_off_context_top saved l rcx rdx v.current j s
    → RunsWithout word64 cothread_off_context_top saved l Reg-discrete rcx rdx switch_code v.current
        j
        (exec Reg-discrete word64 switch_code s)
        m
        u
    → CanLeave word64 cothread_off_context_top saved l rcx rdx m v.current u
    → IsRunning saved (caller word64 saved s) (exec Reg-discrete word64 switch_code u)
round_trip_win l v j s valid r leave run back =
    Resume.resumes_caller word64 (omega arith) cothread_off_context_top saved l valid Reg-discrete
      rcx rdx switch_code switch_code-Switched_win v j s r leave run back
