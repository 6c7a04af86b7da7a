-- ===== src/Tests/Threads32.antt =====
-- Two cothreads on one 32 bit processor, the first about to switch to the second.
use libcommunism.Base.{ℕ, ◌<◌, ◌≡◌, ◌≢◌, ◌==◌, if◌then◌else◌, refl, arith}
use libcommunism.Impl.{word32}
use libcommunism.Memory.{write}
use libcommunism.Machine.{State}
use libcommunism.Machine.Threads.{Layout, IsLayout, View, Refines, Waits}
use libcommunism.X86.{cothread_off_context_top}
use libcommunism.X86.{Reg, saved}
use libcommunism.Tests.Switching32.{suspended, waiting, caller, ready}

abbrev pub layout : Layout
layout = record {
  count = 2;
  obj = λ i. if i == 0 then 2048 else 1024;
  lo = λ i. if i == 0 then 60000 else 4096;
  hi = λ i. if i == 0 then 65540 else 4608;
}

abbrev pub view : View
view = record { current = 0; context = λ j. waiting }

abbrev pub start : State Reg
start = caller suspended

pub layout-IsLayout : IsLayout word32 cothread_off_context_top layout
layout-IsLayout = record {
  fits = λ i lt. ground arith;
  obj_fits = λ i lt. ground arith;
  disjoint = λ i j lt lt' ne. ground arith;
  differ = λ i j lt lt' ne. λ e. ground arith;
  apart = λ i j lt lt'. ground arith;
}

second_waits :
    (j : ℕ)
    → j < 2
    → j ≢ 0
    → Waits {R = Reg} word32 cothread_off_context_top saved layout suspended j waiting
unfolding write
second_waits j lt ne =
    let one : j ≡ 1 = omega arith in
    rw one
      record { suspended = ready.suspended; low = omega arith; high = omega arith; count = refl }

pub start-Refines : Refines word32 cothread_off_context_top saved layout view start
start-Refines = record {
  known = omega arith;
  low = omega arith;
  high = omega arith;
  waiting = second_waits;
}
