-- ===== src/Tests/SwitchingAarch64.antt =====
-- Two cothreads on an aarch64 processor, the objects at 2048 and 1024 with contexts at 8192 and 4096:
-- a switch, a switch back, and a first switch.
use libcommunism.Base.{ℕ, ◌==◌, if◌then◌else◌, inr, refl, false, arith}
use libcommunism.Memory.{Memory, write}
use libcommunism.Aarch64.{Aarch64, build_context}
use libcommunism.Aarch64.Machine.{Reg, x0, x1, lr, sp, State, exec, switch_code}
use libcommunism.Aarch64.Switch.{CanSwitch}
use libcommunism.Aarch64.Threads.{Layout, IsLayout, Points}

abbrev pub layout : Layout
layout = record {
  count = 2;
  obj = λ i. if i == 0 then 2048 else 1024;
  area = λ i. if i == 0 then 8192 else 4096;
}

abbrev fields : Memory
fields q = if q == 2080 then 8192 else (if q == 1056 then 4096 else 7)

abbrev registers : Reg → ℕ
registers x0 = 2048
registers x1 = 1024
registers sp = 9000
registers lr = 777
registers r = 5

abbrev pub start : State
start = record { regs = registers; pc = 0; mem = fields }

-- The second cothread has the arguments of its own call of Switch in place.
abbrev swapped : Reg → ℕ
swapped x0 = 1024
swapped x1 = 2048
swapped r = 6

abbrev back : State
back = record (exec switch_code start) { regs = swapped }

pub layout-IsLayout : IsLayout layout
layout-IsLayout = record {
  fits = λ i lt. ground arith;
  obj_fits = λ i lt. ground arith;
  disjoint = λ i j lt lt' ne. ground arith;
  apart = λ i j lt lt'. ground arith;
}

pub start-Points : Points layout start.mem
start-Points i lt = ground arith

abbrev thread : Aarch64
thread = record { this = 1024; stack = record { addr = 4096; size = 64 }; owns_stack = false }

abbrev prepared : State
prepared = record start { mem = build_context 9000 thread 7 fields }

first : CanSwitch 8192 4096 prepared
unfolding build_context write
first = record {
  from = refl;
  to = refl;
  from_fits = omega arith;
  to_fits = omega arith;
  here_fits = omega arith;
  there_fits = omega arith;
  apart = inr (omega arith);
}
