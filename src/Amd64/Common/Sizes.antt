-- ===== src/Amd64/Common/Sizes.antt =====
-- The size of the stack that the allocating constructor of Amd64 asks for.
use libcommunism.Base.{ℕ, ◌+◌, ◌*◌, ◌/◌, ◌%◌, ◌≤◌, ◌<◌, ◌≡◌, ◌⊎◌, arith}
use libcommunism.Span.{clear_low}
use libcommunism.Amd64.Object.{k_default_stack_size}
use libcommunism.Amd64.Common.{alloc_size}

-- A positive multiple of the alignment, and so of the word size.
pub alloc_size_aligned :
    (n : ℕ) → (alloc_size n % 64 ≡ 0) × (64 ≤ alloc_size n) × (alloc_size n / 8 * 8 ≡ alloc_size n)
unfolding alloc_size clear_low
alloc_size_aligned n = ground arith

-- A request below 64 bytes gets the default size; any other is rounded down, by less than 64.
pub alloc_size_cases :
    (n : ℕ)
    → ((n < 64) × (alloc_size n ≡ k_default_stack_size))
      ⊎ ((64 ≤ n) × (alloc_size n ≤ n) × (n < alloc_size n + 64))
unfolding alloc_size clear_low
alloc_size_cases n = ground arith
