-- ===== src/Machine.antt =====
-- The part of an x86 processor that the assembly files of src/arch/amd64 and src/arch/x86 use:
-- general registers, stack pointer, instruction pointer and memory. `R` names the general
-- registers, and a `Word` gives the size of a machine word and the modulus of an address.
pub mod Stack
pub mod Switch
pub mod Cursor
pub mod Frame
pub mod Threads
pub mod Entry
pub mod Kept
pub mod Spill
use libcommunism.Base.{ℕ, ◌+◌, ◌-◌, ◌%◌, ◌*◌, ◌≤◌, ◌<◌, ◌≡◌, List, [], ◌∷◌, ◌++◌, arith, map}
use mathlib.Core.Logic.{ite}
use libcommunism.Memory.{Memory, write}

pub record Word : Type 0 where
  pub bytes : ℕ
  pub modulus : ℕ

pub data Instr (R : Type 0) : Type 0 where
  -- push r; pop r
  push : R → Instr R
  pop : R → Instr R
  -- mov %sp, off(base); mov off(base), %sp
  store_sp : (base : R) (off : ℕ) → Instr R
  load_sp : (base : R) (off : ℕ) → Instr R
  -- mov r, [sp - off]; mov [sp - off], r
  store_below : (off : ℕ) (r : R) → Instr R
  load_below : (off : ℕ) (r : R) → Instr R
  -- sub n, %sp; add n, %sp; mov %sp, r
  sub_sp : ℕ → Instr R
  add_sp : ℕ → Instr R
  move_sp : R → Instr R
  -- ret; jmp *r
  ret : Instr R
  jmp : R → Instr R
  -- call f, with the address of the next instruction
  call : (target next : ℕ) → Instr R

pub record State (R : Type 0) : Type 0 where
  pub regs : R → ℕ
  pub sp : ℕ
  pub ip : ℕ
  pub mem : Memory

-- Addresses wrap around.
unfoldable pub add_word : Word → ℕ → ℕ → ℕ
add_word w a n = (a + n) % w.modulus

unfoldable pub sub_word : Word → ℕ → ℕ → ℕ
sub_word w a n = (a + w.modulus - n) % w.modulus

module _ {R : Type 0} (same : Discrete R) where
  unfoldable pub set_reg : R → ℕ → (R → ℕ) → R → ℕ
  set_reg r v regs q = ite (same r q) v (regs q)

  module _ (w : Word) where
    unfoldable pub step : Instr R → State R → State R
    step (push r) s =
        let top = sub_word w s.sp w.bytes in record s { sp = top; mem = write s.mem top (s.regs r) }
    step (pop r) s = record s { regs = set_reg r (s.mem s.sp) s.regs; sp = add_word w s.sp w.bytes }
    step (store_sp base off) s = record s { mem = write s.mem (add_word w (s.regs base) off) s.sp }
    step (load_sp base off) s = record s { sp = s.mem (add_word w (s.regs base) off) }
    step (store_below off r) s = record s { mem = write s.mem (sub_word w s.sp off) (s.regs r) }
    step (load_below off r) s = record s { regs = set_reg r (s.mem (sub_word w s.sp off)) s.regs }
    step (sub_sp n) s = record s { sp = sub_word w s.sp n }
    step (add_sp n) s = record s { sp = add_word w s.sp n }
    step (move_sp r) s = record s { regs = set_reg r s.sp s.regs }
    step ret s = record s { ip = s.mem s.sp; sp = add_word w s.sp w.bytes }
    step (jmp r) s = record s { ip = s.regs r }
    step (call target next) s =
        let top = sub_word w s.sp w.bytes in
        record s { sp = top; mem = write s.mem top next; ip = target }

    -- A run of straight-line code; a `ret`, `jmp` or `call` ends it by its target.
    unfoldable pub exec : List (Instr R) → State R → State R
    exec [] s = s
    exec (i ∷ is) s = exec is (step i s)
