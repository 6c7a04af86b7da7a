-- ===== src/Tests/Cothreads.antt =====
-- Two Cothread objects, at 100 and 200, on one 64 bit processor: the first switches to the second, which
-- switches back.
use mathlib.Core.List.{reverse_aux}
use libcommunism.Base.{ℕ, ◌≡◌, ◌==◌, if◌then◌else◌, refl, false, none, some, ok, [], map, arith}
use libcommunism.Memory.{write}
use libcommunism.Machine.{State, exec, step, add_word, sub_word, set_reg}
use libcommunism.Machine.Switch.{IsRunning, call_switch}
use libcommunism.Amd64.SysV.{Reg, saved, switch_to, switch_code, Reg-discrete}
use libcommunism.Amd64.SysV.Cothreads.{Program, Good, switch_to-switch_to_sysv}
use libcommunism.Cothread.{Cothread, Runtime, default_handler, current}
use libcommunism.Cothread
use libcommunism.Cothread.Processor.{Calls, processor, work, here}
use libcommunism.Tests.Threads.{layout, layout-IsLayout, view, start, start-Refines}

abbrev calls : Calls (State Reg)
calls = record {
  alloc_kernel_thread_wrapper = λ s. (s, 0);
  new_cothread = λ s. (s, 0);
  delete_impl = λ p s. s;
  destroy_impl = λ p s. s;
  get_stack = λ p s. 0;
  get_stack_size = λ p s. 0;
}

abbrev at : ℕ → ℕ
at i = if i == 0 then 100 else 200

abbrev object : ℕ → Cothread
object impl = record { label = []; impl = impl; impl_buffer = 0; impl_buffer_used = false }

abbrev first : Program ℕ 9000 777 calls layout at
first = record {
  current = 100;
  handler = default_handler;
  threads =
      λ p. if p == 100 then some (object 2048) else (if p == 200 then some (object 1024) else none);
  world = start;
}

abbrev second : Program ℕ 9000 777 calls layout at
second = record first { current = 200; world = switch_to 9000 777 1024 2048 start }

-- The second cothread has worked on its registers.
abbrev later : Program ℕ 9000 777 calls layout at
later = record second { world = record (second.world) { regs = λ r. 6 } }

second_sp : second.world.sp ≡ 4152
unfolding switch_to switch_code call_switch exec step write add_word sub_word set_reg Reg-discrete
second_sp = refl

first-Good : Good ℕ 9000 777 calls layout at view first
first-Good = record {
  threads = λ i lt. (object (layout.obj i), ground arith, refl);
  alive = λ i lt. ground arith;
  current = refl;
  refines = start-Refines;
}

switch_to-switch_to_sysv_example :
    (z : Program ℕ 9000 777 calls layout at) × (Cothread.switch_to
        (processor (switch_to 9000 777) calls)
        100
        later
      ≡ ok z)
    × (z.current ≡ 100)
    × IsRunning saved
        (record { words = reverse_aux (map start.regs saved) []; ip = 777; sp = 65536 })
        z.world
unfolding Cothread.switch_to current
switch_to-switch_to_sysv_example =
    switch_to-switch_to_sysv ℕ 9000 777 calls layout at view 1 first second later layout-IsLayout
      first-Good (omega arith) (λ e. omega (arith, e)) (omega arith) refl
      (work
        (record {
          low = rw second_sp (omega arith);
          high = rw second_sp (omega arith);
          stacks = λ j lt ne q lo hi. refl;
          fields = λ j lt. refl;
        })
        here)
      (rw second_sp (omega arith))
