-- ===== src/Aarch64/Machine.antt =====
-- The instructions and the registers of src/arch/aarch64/AAPCS.S, and its code.
use libcommunism.Base.{ℕ, List, [], ◌∷◌}
use libcommunism.Memory.{Memory, write}
use libcommunism.Impl.{word64}
use package.libcommunism.Machine.{add_word, set_reg}

pub data Reg : Type 0 where
  x0 x1 x16 lr sp : Reg
  x19 x20 x21 x22 x23 x24 x25 x26 x27 x28 x29 : Reg
  d8 d9 d10 d11 d12 d13 d14 d15 : Reg

unfoldable pub Reg-discrete : Discrete Reg
Reg-discrete = hlevel

pub data Instr : Type 0 where
  -- ldr r, [base, off]; str r, [base, off]
  ldr : (r base : Reg) (off : ℕ) → Instr
  str : (r base : Reg) (off : ℕ) → Instr
  -- ldp r, q, [base, off]; stp r, q, [base, off]
  ldp : (r q base : Reg) (off : ℕ) → Instr
  stp : (r q base : Reg) (off : ℕ) → Instr
  -- mov r, q; br r
  mov : (r q : Reg) → Instr
  br : Reg → Instr
  -- bl f, with the address of the next instruction
  bl : (target next : ℕ) → Instr

pub record State : Type 0 where
  pub regs : Reg → ℕ
  pub pc : ℕ
  pub mem : Memory

unfoldable pub step : Instr → State → State
unfolding Reg-discrete
step (ldr r base off) s = record s {
  regs = set_reg Reg-discrete r (s.mem (add_word word64 (s.regs base) off)) s.regs;
}
step (str r base off) s = record s {
  mem = write s.mem (add_word word64 (s.regs base) off) (s.regs r);
}
step (ldp r q base off) s =
    let at = add_word word64 (s.regs base) off in
    record s {
      regs =
          set_reg Reg-discrete q (s.mem (add_word word64 at 8))
            (set_reg Reg-discrete r (s.mem at) s.regs);
    }
step (stp r q base off) s =
    let at = add_word word64 (s.regs base) off in
    record s { mem = write (write s.mem at (s.regs r)) (add_word word64 at 8) (s.regs q) }
step (mov r q) s = record s { regs = set_reg Reg-discrete r (s.regs q) s.regs }
step (br r) s = record s { pc = s.regs r }
step (bl target next) s = record s { regs = set_reg Reg-discrete lr next s.regs; pc = target }

unfoldable pub exec : List Instr → State → State
unfolding step
exec [] s = s
exec (i ∷ is) s = exec is (step i s)

unfoldable pub switch_code : List Instr
switch_code =
    ldr x0 x0 0x20
    ∷ ldr x1 x1 0x20
    ∷ mov x16 sp
    ∷ stp x16 lr x0 0x00
    ∷ ldp x16 lr x1 0x00
    ∷ mov sp x16
    ∷ stp x19 x20 x0 0x10
    ∷ ldp x19 x20 x1 0x10
    ∷ stp x21 x22 x0 0x20
    ∷ ldp x21 x22 x1 0x20
    ∷ stp x23 x24 x0 0x30
    ∷ ldp x23 x24 x1 0x30
    ∷ stp x25 x26 x0 0x40
    ∷ ldp x25 x26 x1 0x40
    ∷ stp x27 x28 x0 0x50
    ∷ ldp x27 x28 x1 0x50
    ∷ str x29 x0 0x60
    ∷ ldr x29 x1 0x60
    ∷ stp d8 d9 x0 0x70
    ∷ ldp d8 d9 x1 0x70
    ∷ stp d10 d11 x0 0x80
    ∷ ldp d10 d11 x1 0x80
    ∷ stp d12 d13 x0 0x90
    ∷ ldp d12 d13 x1 0x90
    ∷ stp d14 d15 x0 0xA0
    ∷ ldp d14 d15 x1 0xA0
    ∷ br lr
    ∷ []

-- Aarch64AapcsEntryStub
unfoldable pub entry_stub_code : (dereference_call_info next : ℕ) → List Instr
entry_stub_code dereference_call_info next = mov x0 x19 ∷ bl dereference_call_info next ∷ []

-- Aarch64::switchTo(): the call of Switch, which is at the address `entry`, with `next` behind it.
unfoldable pub switch_to : (entry next this other : ℕ) → State → State
unfolding exec step switch_code
switch_to entry next this other s = exec switch_code (
    step (bl entry next)
      (record s { regs = set_reg Reg-discrete x1 this (set_reg Reg-discrete x0 other s.regs) }))
