-- ===== src/Tests/Creation.antt =====
-- Cothreads over 64 bit backends, on the allocator of `Fixtures`.
use libcommunism.Base.{ℕ, ◌≤◌, ◌≡◌, ◌↔◌, inr, refl, true, false, some, none, ok, arith}
use libcommunism.Memory.{Memory}
use libcommunism.Span.{clear_low}
use libcommunism.Heap.{Process}
use libcommunism.Amd64.Object.{Amd64, Symbols}
use libcommunism.Amd64.Common.{alloc_size, construct_sized, destroy}
use libcommunism.Amd64.SysV.{validate_stack_size, build_frame, alloc_stack, prepare}
use libcommunism.Amd64.SysV.Life.{
  sysv, IsCreated, construct_sized-IsCreated, destroy-construct_sized,
}
use libcommunism.Amd64.SysV.Bounds.{build_frame_within_iff}
use libcommunism.Tests.Fixtures.{blocks, blocks-IsAllocator, set_info, set_live}

abbrev pub symbols : Symbols
symbols = record { entry_returned_stub = 9000; dereference_call_info = 9100; jump_to_entry = 9200 }

abbrev zeroed : Memory
zeroed q = 0

-- No block is in use.
abbrev pub idle : Process blocks
idle = record { mem = zeroed; heap = (λ q. false, λ q. none) }

construct_sized-IsCreated_example :
    (t : Amd64) × (q : Process blocks) × (info : ℕ) × (construct_sized blocks
        (sysv blocks symbols)
        1024
        5
        256
        idle
      ≡ ok (t, q))
    × IsCreated blocks symbols 5 256 1024 info idle t q
unfolding alloc_size clear_low
construct_sized-IsCreated_example =
    construct_sized-IsCreated blocks blocks-IsAllocator symbols 1024 5 256 idle refl
      (inr (omega arith)) (inr (omega arith))

-- The object that the constructor gives for 256 bytes, and the process after it.
abbrev pub thread : Amd64
thread = record { this = 1024; stack = record { addr = 64; size = 32 }; owns_stack = true }

abbrev pub after : Process blocks
after = record {
  mem = build_frame symbols thread 7 zeroed;
  heap = set_info 7 (some 5) (set_live 64 true idle.heap);
}

pub constructed : construct_sized blocks (sysv blocks symbols) 1024 5 256 idle ≡ ok (thread, after)
unfolding construct_sized alloc_size clear_low sysv alloc_stack prepare
constructed = refl

destroy-construct_sized_example :
    ((b : ℕ) → blocks.is_live (destroy blocks (sysv blocks symbols) thread after).heap b ≡ false)
    × (blocks.info (destroy blocks (sysv blocks symbols) thread after).heap 7 ≡ some 5)
destroy-construct_sized_example =
    destroy-construct_sized blocks blocks-IsAllocator symbols 1024 5 256 idle thread after
      constructed

-- An object on a stack of 128 bytes.
abbrev small : Amd64
small = record { this = 1024; stack = record { addr = 4096; size = 16 }; owns_stack = false }

build_frame_within_iff_example :
    (validate_stack_size 128 ≡ ok tt)
    × ((4096 ≤ build_frame symbols small 7 zeroed 1056) ↔ (160 ≤ 128))
build_frame_within_iff_example =
    build_frame_within_iff symbols small 7 zeroed (omega arith) refl (omega arith) (omega arith)
