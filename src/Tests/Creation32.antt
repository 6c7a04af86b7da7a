-- ===== src/Tests/Creation32.antt =====
-- A cothread over the 32 bit backend on Windows, on the allocator of `Fixtures`.
use libcommunism.Base.{ℕ, ◌≡◌, inr, refl, true, false, none, ok, arith}
use libcommunism.Span.{clear_low}
use libcommunism.Heap.{Process}
use libcommunism.X86.{X86, Symbols, windows, stack_memory, alloc_size, construct_sized, destroy}
use libcommunism.X86.Life.{IsCreated, construct_sized-IsCreated_x86}
use libcommunism.Tests.Fixtures.{blocks, blocks-IsAllocator_32, set_live}

abbrev pub symbols : Symbols
symbols = record { dereference_call_info = 9100; jump_to_entry = 9200 }

-- No block is in use.
abbrev idle : Process blocks
idle = record { mem = λ q. 0; heap = (λ q. false, λ q. none) }

construct_sized-IsCreated_x86_example :
    (t : X86) × (q : Process blocks) × (info : ℕ) × (construct_sized blocks windows symbols 1024 5
        256 idle
      ≡ ok (t, q))
    × IsCreated blocks symbols 5 256 1024 info idle t q
    × ((b : ℕ) → blocks.is_live (destroy blocks windows t q).heap b ≡ false)
unfolding stack_memory alloc_size clear_low
construct_sized-IsCreated_x86_example =
    construct_sized-IsCreated_x86 blocks blocks-IsAllocator_32 windows symbols 1024 5 256 16
      (set_live 16 true idle.heap) idle refl (λ e. omega (arith, e)) (inr (omega arith))
      (inr (omega arith))
