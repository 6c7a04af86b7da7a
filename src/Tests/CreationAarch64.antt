-- ===== src/Tests/CreationAarch64.antt =====
-- A cothread over the aarch64 backend, on the allocator of `Fixtures`.
use libcommunism.Base.{ℕ, ◌≡◌, inr, refl, false, none, ok, arith}
use libcommunism.Span.{clear_low}
use libcommunism.Heap.{Process}
use libcommunism.Aarch64.{Aarch64, alloc_size, construct_sized, destroy}
use libcommunism.Aarch64.Life.{IsCreated, construct_sized-IsCreated_arm}
use libcommunism.Tests.Fixtures.{blocks, blocks-IsAllocator}

-- No block is in use.
abbrev idle : Process blocks
idle = record { mem = λ q. 0; heap = (λ q. false, λ q. none) }

construct_sized-IsCreated_arm_example :
    (t : Aarch64) × (q : Process blocks) × (info : ℕ) × (construct_sized blocks 9000 1024 5 256 idle
      ≡ ok (t, q))
    × IsCreated blocks 9000 5 256 1024 info idle t q
    × ((b : ℕ) → blocks.is_live (destroy blocks t q).heap b ≡ false)
unfolding alloc_size clear_low
construct_sized-IsCreated_arm_example =
    construct_sized-IsCreated_arm blocks blocks-IsAllocator 9000 1024 5 256 idle refl (omega arith)
      (inr (omega arith))
