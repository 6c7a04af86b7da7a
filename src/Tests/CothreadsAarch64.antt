-- ===== src/Tests/CothreadsAarch64.antt =====
-- Two Cothread objects, at 100 and 200, on an aarch64 processor: the first switches to the second, which
-- switches back.
use libcommunism.Base.{ℕ, ◌≡◌, ◌==◌, if◌then◌else◌, refl, false, none, some, ok, [], arith}
use package.libcommunism.Machine.{set_reg}
use libcommunism.Aarch64.Machine.{State, Reg-discrete, lr, switch_to}
use libcommunism.Aarch64.Context.{Each}
use libcommunism.Aarch64.Switch.{context}
use libcommunism.Aarch64.Cothreads.{Program, IsConsistent, here, work, switch_to-switch_to_arm}
use libcommunism.Cothread.{Cothread, default_handler, current}
use libcommunism.Cothread
use libcommunism.Cothread.Processor.{Calls, processor}
use libcommunism.Tests.SwitchingAarch64.{layout, layout-IsLayout, start, start-Points}

abbrev calls : Calls State
calls = record {
  alloc_kernel_thread_wrapper = λ s. (s, 0);
  new_cothread = λ s. (s, 0);
  delete_impl = λ p s. s;
  destroy_impl = λ p s. s;
  get_stack = λ p s. 0;
  get_stack_size = λ p s. 0;
}

abbrev at : ℕ → ℕ
at i = if i == 0 then 100 else 200

abbrev object : ℕ → Cothread
object impl = record { label = []; impl = impl; impl_buffer = 0; impl_buffer_used = false }

abbrev first : Program ℕ 9000 777 calls layout at
first = record {
  current = 100;
  handler = default_handler;
  threads =
      λ p. if p == 100 then some (object 2048) else (if p == 200 then some (object 1024) else none);
  world = start;
}

abbrev second : Program ℕ 9000 777 calls layout at
second = record first { current = 200; world = switch_to 9000 777 1024 2048 start }

-- The second cothread has worked on its registers.
abbrev later : Program ℕ 9000 777 calls layout at
later = record second { world = record (second.world) { regs = λ r. 6 } }

first-IsConsistent : IsConsistent ℕ 9000 777 calls layout at 0 first
first-IsConsistent = record {
  threads = λ i lt. (object (layout.obj i), ground arith, refl);
  alive = λ i lt. ground arith;
  known = omega arith;
  current = refl;
  points = start-Points;
}

switch_to-switch_to_arm_example :
    (z : Program ℕ 9000 777 calls layout at) × (Cothread.switch_to
        (processor (switch_to 9000 777) calls)
        100
        later
      ≡ ok z)
    × (z.current ≡ 100)
    × (z.world.pc ≡ 777)
    × Each (λ g o. z.world.regs g ≡ set_reg Reg-discrete lr 777 start.regs g) context
unfolding Cothread.switch_to current
switch_to-switch_to_arm_example =
    switch_to-switch_to_arm ℕ 9000 777 calls layout at layout-IsLayout 0 1 first second later
      first-IsConsistent (omega arith) (λ e. omega (arith, e)) refl
      (work (record { contexts = λ j lt a lo hi. refl; fields = λ j lt. refl }) here)
