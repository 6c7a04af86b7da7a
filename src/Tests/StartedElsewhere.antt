-- ===== src/Tests/StartedElsewhere.antt =====
-- First switches over the Windows, x86 and aarch64 backends to an object that the constructor has given a
-- stack, by a program that has written since.
use libcommunism.Base.{ℕ, ◌≡◌, inl, inr, refl, true, some, ok, arith}
use libcommunism.Memory.{write}
use libcommunism.Span.{clear_low}
use libcommunism.Impl.{word32, word64}
use libcommunism.Heap.{Process}
use libcommunism.Machine.{State, exec}
use libcommunism.Amd64.Object.{Amd64}
use libcommunism.Amd64.Common
use libcommunism.Amd64.Windows
use libcommunism.Amd64.Windows.Life.{windows}
use libcommunism.Amd64.Windows.Entry
use libcommunism.Amd64.Windows.Start.{IsEntered-construct_sized_win}
use libcommunism.X86.{X86}
use libcommunism.X86
use libcommunism.X86.Entry as X86Entry
use libcommunism.X86.Start.{IsEntered-construct_sized_x86}
use libcommunism.Aarch64.{Aarch64}
use libcommunism.Aarch64
use libcommunism.Aarch64.Machine
use libcommunism.Aarch64.Switch.{CanSwitch}
use libcommunism.Aarch64.Entry as Aarch64Entry
use libcommunism.Aarch64.Start.{IsEntered-construct_sized_arm}
use libcommunism.Tests.Fixtures.{
  blocks, blocks-IsAllocator, blocks-IsAllocator_32, set_info, set_live,
}
use libcommunism.Tests.Creation.{symbols, idle}
use libcommunism.Tests.Creation32

-- Windows: 512 bytes, from the object at 2048 to that at 1024.
abbrev thread : Amd64
thread = record { this = 1024; stack = record { addr = 64; size = 64 }; owns_stack = true }

abbrev after : Process blocks
after = record {
  mem = Windows.build_frame symbols thread 7 idle.mem;
  heap = set_info 7 (some 5) (set_live 64 true idle.heap);
}

constructed :
    Common.construct_sized blocks (windows blocks symbols) 1024 5 512 idle ≡ ok (thread, after)
unfolding Common.construct_sized Common.alloc_size clear_low windows Windows.alloc_stack
    Windows.prepare
constructed = refl

abbrev registers : Windows.Reg → ℕ
registers Windows.rcx = 2048
registers Windows.rdx = 1024
registers r = 5

abbrev caller : State Windows.Reg
caller = record { regs = registers; sp = 65536; ip = 0; mem = write after.mem 65536 777 }

caller-CanStart : Entry.CanStart thread caller
caller-CanStart = record {
  room = omega arith;
  top = omega arith;
  from_fits = omega arith;
  to = refl;
  to_fits = omega arith;
  differ = λ e. omega (arith, e);
  from_apart = inl (omega arith);
  to_apart = inl (omega arith);
  stack_apart = inl (omega arith);
  field_apart = inr (omega arith);
}

IsEntered-construct_sized_win_example :
    (info : ℕ) × (blocks.info after.heap info ≡ some 5)
    × Entry.IsEntered symbols thread info (
        exec Windows.Reg-discrete word64 Windows.jump_to_entry_code
          (exec Windows.Reg-discrete word64 Windows.switch_code caller))
unfolding write Common.alloc_size clear_low
IsEntered-construct_sized_win_example =
    IsEntered-construct_sized_win blocks blocks-IsAllocator symbols 1024 5 512 idle
      (λ e. omega (arith, e)) (inr (omega arith)) (inr (omega arith)) thread after caller
      constructed (refl, λ q lo hi. ground arith) caller-CanStart

-- x86 on Windows: 256 bytes, from the object at 2048 to that at 1024.
abbrev thread_32 : X86
thread_32 = record { this = 1024; stack = record { addr = 16; size = 64 }; owns_stack = true }

abbrev after_32 : Process blocks
after_32 = record {
  mem = X86.build_frame Creation32.symbols thread_32 7 idle.mem;
  heap = set_info 7 (some 5) (set_live 16 true idle.heap);
}

constructed_32 :
    X86.construct_sized blocks X86.windows Creation32.symbols 1024 5 256 idle
    ≡ ok (thread_32, after_32)
unfolding X86.construct_sized X86.alloc_size clear_low X86.stack_memory X86.alloc_stack X86.prepare
constructed_32 = refl

abbrev registers_32 : X86.Reg → ℕ
registers_32 X86.ecx = 2048
registers_32 X86.edx = 1024
registers_32 r = 5

abbrev caller_32 : State X86.Reg
caller_32 = record { regs = registers_32; sp = 65536; ip = 0; mem = write after_32.mem 65536 777 }

caller_32-CanStart : X86Entry.CanStart thread_32 caller_32
caller_32-CanStart = record {
  room = omega arith;
  top = omega arith;
  from_fits = omega arith;
  to = refl;
  to_fits = omega arith;
  differ = λ e. omega (arith, e);
  from_apart = inl (omega arith);
  to_apart = inl (omega arith);
  stack_apart = inl (omega arith);
  field_apart = inr (omega arith);
}

IsEntered-construct_sized_x86_example :
    (info : ℕ) × (blocks.info after_32.heap info ≡ some 5)
    × X86Entry.IsEntered Creation32.symbols thread_32 info (
        exec X86.Reg-discrete word32 X86.jump_to_entry_code
          (exec X86.Reg-discrete word32 X86.switch_code caller_32))
unfolding write X86.stack_memory X86.alloc_size clear_low
IsEntered-construct_sized_x86_example =
    IsEntered-construct_sized_x86 blocks blocks-IsAllocator_32 X86.windows Creation32.symbols 1024 5
      256 16 (set_live 16 true idle.heap) idle refl (λ e. omega (arith, e)) (inr (omega arith))
      (inr (omega arith)) thread_32 after_32 caller_32 constructed_32
      (refl, λ q lo hi. ground arith) caller_32-CanStart

-- aarch64: 256 bytes, from the object at 2048, with its context at 8192, to that at 1024.
abbrev thread_arm : Aarch64
thread_arm = record { this = 1024; stack = record { addr = 64; size = 64 }; owns_stack = true }

abbrev after_arm : Process blocks
after_arm = record {
  mem = Aarch64.build_context 9000 thread_arm 7 idle.mem;
  heap = set_info 7 (some 5) (set_live 64 true idle.heap);
}

constructed_arm : Aarch64.construct_sized blocks 9000 1024 5 256 idle ≡ ok (thread_arm, after_arm)
unfolding Aarch64.construct_sized Aarch64.alloc_size clear_low Aarch64.alloc_stack Aarch64.prepare
constructed_arm = refl

abbrev registers_arm : Machine.Reg → ℕ
registers_arm Machine.x0 = 2048
registers_arm Machine.x1 = 1024
registers_arm r = 5

abbrev caller_arm : Machine.State
caller_arm = record { regs = registers_arm; pc = 0; mem = write after_arm.mem 2080 8192 }

caller_arm-CanSwitch : CanSwitch 8192 64 caller_arm
unfolding write Aarch64.build_context
caller_arm-CanSwitch = record {
  from = refl;
  to = refl;
  from_fits = omega arith;
  to_fits = omega arith;
  here_fits = omega arith;
  there_fits = omega arith;
  apart = inr (omega arith);
}

IsEntered-construct_sized_arm_example :
    (info : ℕ) × (blocks.info after_arm.heap info ≡ some 5)
    × ((Machine.exec Machine.switch_code caller_arm).pc ≡ 9000)
    × Aarch64Entry.IsEntered 9100 777 thread_arm info (
        Machine.exec
          (Machine.entry_stub_code 9100 777)
          (Machine.exec Machine.switch_code caller_arm))
unfolding write Aarch64.alloc_size clear_low
IsEntered-construct_sized_arm_example =
    IsEntered-construct_sized_arm blocks blocks-IsAllocator 9000 9100 777 1024 5 256 idle refl
      (omega arith) (inr (omega arith)) thread_arm after_arm 8192 caller_arm constructed_arm
      (refl, λ q lo hi. ground arith) caller_arm-CanSwitch
