-- ===== src/Tests/SwitchingWindows.antt =====
-- A switch under the Windows ABI: from an object at 2048, on a stack below 65544, to the object at 1024,
-- which is suspended at 4096.
use libcommunism.Base.{ℕ, ◌+◌, inl, ◌≡◌, refl, arith}
use libcommunism.Memory.{Memory, write}
use libcommunism.Impl.{word64}
use libcommunism.Machine.{State, exec}
use libcommunism.Machine.Cursor.{replicate}
use libcommunism.Machine.Switch.{Context, CanSwitch, switch_shape}
use libcommunism.Amd64.Object.{cothread_off_context_top}
use libcommunism.Amd64.Windows.Entry.{exec-switch_code_win}
use libcommunism.Amd64.Windows.{Reg, Reg-discrete, saved, switch_code, rcx, rdx, low, high}

-- The return address of the call of Switch is 777.
abbrev pub below : Memory
below q = write (λ q. 0) 65536 777 q

-- Memory with the stack pointer of the other object, and its saved words all zero.
abbrev pub suspended : Memory
suspended q = write below (1024 + 0x20) 4096 q

abbrev pub waiting : Context
waiting = record { words = replicate 28 0; ip = 0; sp = 4096 + 232 }

abbrev pub registers : Reg → ℕ
registers rcx = 2048
registers rdx = 1024
registers (low x) = 7
registers (high x) = 9
registers r = 5

abbrev pub caller : Memory → State Reg
caller m = record { regs = registers; sp = 65536; ip = 0; mem = m }

pub ready : CanSwitch word64 cothread_off_context_top 28 2048 1024 65536 suspended waiting
unfolding write
ready = record {
  room = omega arith;
  top = omega arith;
  from_fits = omega arith;
  to_fits = omega arith;
  from_apart = inl (omega arith);
  to_apart = inl (omega arith);
  differ = λ e. omega (arith, e);
  count = refl;
  resumes = omega arith;
  suspended = record { frame = grind arith; sp = refl };
  frame_apart = inl (omega arith);
  frame_spared = inl (omega arith);
}

exec-switch_code_win_example :
    exec Reg-discrete word64 switch_code (caller suspended)
    ≡ exec Reg-discrete word64
        (switch_shape saved rcx rdx cothread_off_context_top)
        (caller suspended)
exec-switch_code_win_example = exec-switch_code_win (caller suspended) waiting ready
