-- ===== src/Tests/Started.antt =====
-- The first switch to the object that `Creation` constructs, by a program that has written 777 at 65536
-- since.
use libcommunism.Base.{ℕ, ◌≡◌, inl, inr, refl, some, arith}
use libcommunism.Memory.{write}
use libcommunism.Machine.{State, exec}
use libcommunism.Amd64.SysV.{Reg, rdi, rsi, Reg-discrete, switch_code, jump_to_entry_code}
use libcommunism.Impl.{word64}
use libcommunism.Amd64.SysV.Entry.{IsEntered, CanStart}
use libcommunism.Amd64.SysV.Start.{IsEntered-construct_sized}
use libcommunism.Tests.Fixtures.{blocks, blocks-IsAllocator}
use libcommunism.Tests.Creation.{symbols, idle, thread, after, constructed}

abbrev registers : Reg → ℕ
registers rdi = 2048
registers rsi = 1024
registers r = 5

abbrev caller : State Reg
caller = record { regs = registers; sp = 65536; ip = 0; mem = write after.mem 65536 777 }

can_start : CanStart thread caller
can_start = record {
  room = omega arith;
  top = omega arith;
  from_fits = omega arith;
  to = refl;
  to_fits = omega arith;
  differ = λ e. omega (arith, e);
  from_apart = inl (omega arith);
  to_apart = inl (omega arith);
  stack_apart = inl (omega arith);
  field_apart = inr (omega arith);
}

IsEntered-construct_sized_example :
    (info : ℕ) × (blocks.info after.heap info ≡ some 5)
    × IsEntered symbols thread info
        (exec Reg-discrete word64 jump_to_entry_code (exec Reg-discrete word64 switch_code caller))
unfolding write
IsEntered-construct_sized_example =
    IsEntered-construct_sized blocks blocks-IsAllocator symbols 1024 5 256 idle (inr (omega arith))
      thread after caller constructed (inr (omega arith)) (refl, λ q lo hi. ground arith) can_start
