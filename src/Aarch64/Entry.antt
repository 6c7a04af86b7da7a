-- ===== src/Aarch64/Entry.antt =====
-- The way from the first switch to a cothread into its entry point: Prepare() of
-- src/arch/aarch64/AAPCS.cpp, and Switch and Aarch64AapcsEntryStub of src/arch/aarch64/AAPCS.S.
use libcommunism.Base.{ℕ, ◌+◌, ◌*◌, ◌≡◌, ◌∙◌, refl, ap, arith}
use package.libcommunism.Machine.{set_reg}
use libcommunism.Memory.{Memory}
use libcommunism.Aarch64.{Aarch64}
use libcommunism.Aarch64.Machine.{
  x0, lr, sp, x29, Reg-discrete, State, step, exec, switch_code, entry_stub_code,
}
use libcommunism.Aarch64.Prepare.{IsReady}
use libcommunism.Aarch64.Switch.{CanSwitch, switch_code-Switched_arm}

-- The processor is at the call of DereferenceCallInfo(info), on an empty stack, with the address
-- behind the call as the return address.
pub record IsEntered (dereference_call_info next : ℕ) (thread : Aarch64) (info : ℕ) (u : State)
    : Type 0 where
  pub pc : u.pc ≡ dereference_call_info
  pub arg : u.regs x0 ≡ info
  pub link : u.regs lr ≡ next
  pub stack : u.regs sp ≡ thread.stack.addr + thread.stack.size * 8
  pub frame : u.regs x29 ≡ thread.stack.addr + thread.stack.size * 8

-- Where Prepare() has left a context and it does not overlap that of the cothread that switches,
-- Switch() arrives at the entry stub, which calls DereferenceCallInfo with the cothread's CallInfo,
-- the stack pointer and the frame pointer at the end of the cothread's stack.
pub entry_stub-switch_code :
    (entry_stub dereference_call_info next : ℕ) (thread : Aarch64) (info here : ℕ) (m : Memory)
    (s : State)
    → IsReady entry_stub thread info m s.mem
    → CanSwitch here thread.stack.addr s
    → ((exec switch_code s).pc ≡ entry_stub)
      × IsEntered dereference_call_info next thread info
          (exec (entry_stub_code dereference_call_info next) (exec switch_code s))
unfolding exec step entry_stub_code set_reg Reg-discrete
entry_stub-switch_code entry_stub dereference_call_info next thread info here m s ready k =
    let t = switch_code-Switched_arm here thread.stack.addr s k in
    let base : thread.stack.addr + 0 ≡ thread.stack.addr = omega arith in
    (
      t.pc ∙ ready.lr,
      record {
        pc = refl;
        arg = t.loaded.1.1.0 ∙ ready.x19;
        link = refl;
        stack = t.loaded.0 ∙ ap s.mem base ∙ ready.sp;
        frame = t.loaded.1.1.1.1.1.1.1.1.1.1.1.1.0 ∙ ready.x29;
      },
    )
