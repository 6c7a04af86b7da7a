-- ===== src/Tests/Switching.antt =====
-- A first switch on each of the x86 machines: from an object at 2048, on a stack below 65544, to the
-- object at 1024, whose stack begins at 4096.
use libcommunism.Base.{ℕ, ◌+◌, inl, refl, arith}
use libcommunism.Memory.{Memory, write}
use libcommunism.Span.{Span, clear_low}
use libcommunism.Impl.{word64}
use libcommunism.Machine.{State}
use libcommunism.Machine.Cursor.{replicate}
use libcommunism.Machine.Switch.{Context, CanSwitch}
use libcommunism.Machine.Frame.{HasRoom}
use libcommunism.Amd64.Object.{cothread_off_context_top}
use libcommunism.Amd64.SysV.{
  k_num_saved_registers, Reg, rax, rbx, rdi, rsi, rbp, r12, r13, r14, r15,
}

abbrev span : Span
span = record { addr = 4096; size = 64 }

-- The return address of the call of Switch is 777.
abbrev pub below : Memory
below q = write (λ q. 0) 65536 777 q

-- Memory with the stack pointer of the other object, and its saved words all zero.
abbrev pub suspended : Memory
suspended q = write below (1024 + 0x20) 4096 q

abbrev pub waiting : Context
waiting = record { words = replicate 6 0; ip = 0; sp = 4096 + 56 }

abbrev pub registers : Reg → ℕ
registers rax = 1
registers rbx = 2
registers rdi = 2048
registers rsi = 1024
registers rbp = 5
registers r12 = 12
registers r13 = 13
registers r14 = 14
registers r15 = 15

abbrev pub caller : Memory → State Reg
caller m = record { regs = registers; sp = 65536; ip = 0; mem = m }

pub ready : CanSwitch word64 cothread_off_context_top 6 2048 1024 65536 suspended waiting
unfolding write
ready = record {
  room = omega arith;
  top = omega arith;
  from_fits = omega arith;
  to_fits = omega arith;
  from_apart = inl (omega arith);
  to_apart = inl (omega arith);
  differ = λ e. omega (arith, e);
  count = refl;
  resumes = omega arith;
  suspended = record {
    frame = (refl, (refl, (refl, (refl, (refl, (refl, (refl, tt)))))));
    sp = refl;
  };
  frame_apart = inl (omega arith);
  frame_spared = inl (omega arith);
}

room : HasRoom word64 cothread_off_context_top k_num_saved_registers 1024 span
unfolding clear_low
room = record { fits = omega arith; room = omega arith; apart = inl (omega arith) }
